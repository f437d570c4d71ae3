-- ===== src/Scheduler/Admission.antt =====
-- What admission means, without the order of the tests.
use boxer.Base.{ℕ, ◌+◌, ◌≤◌, ◌<◌, String, false, ◌≡◌, ◌↔◌, none, some, arith}
use boxer.Db.Schema.{Database}
use boxer.Db.Vms.{list_vms}
use boxer.Capacity.{Float, HostStatus}
use boxer.Scheduler.{Caps, check_admission, running_vms, used_disk}

module _ (float : Float) {Request : Type 0} where
  -- The request fits: its RAM is not greater than the free RAM, its processors are free, its project
  -- is below its cap of running machines, and its disk fits under the project's cap.
  pub record Fits (caps : Caps) (status : HostStatus float) (project_id : String)
      (cpu ram_mb disk_gb : ℕ) (db : Database Request) : Type 0 where
    pub ram : float.greater (float.of_mib ram_mb) status.free_ram_gib ≡ false
    pub vcpus : cpu ≤ status.free_vcpus
    pub running : running_vms (list_vms (some project_id) db) < caps.max_running_per_project
    pub disk : used_disk (list_vms (some project_id) db) + disk_gb ≤ caps.max_disk_per_project_gib

  -- A request is admitted exactly if it fits: its RAM is not greater than the free RAM, its
  -- processors are free, its project is below its cap of running machines, and its disk fits under
  -- the project's cap.
  pub check_admission_iff :
      (caps : Caps) (status : HostStatus float) (project_id : String) (cpu ram_mb disk_gb : ℕ)
      (db : Database Request)
      → (check_admission float caps status project_id cpu ram_mb disk_gb db ≡ none)
        ↔ Fits caps status project_id cpu ram_mb disk_gb db
  unfolding check_admission
  check_admission_iff caps status project_id cpu ram_mb disk_gb db = (
    λ h. record {
      ram = ground arith;
      vcpus = ground arith;
      running = ground arith;
      disk = ground arith;
    },
    λ f. ground (arith, f.ram, f.vcpus, f.running, f.disk),
  )
