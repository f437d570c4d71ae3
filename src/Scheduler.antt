-- ===== src/Scheduler.antt =====
-- `Scheduler` of boxerd/scheduler.py: admission of a request, and the runner of the queue.
pub mod Admission
pub mod Quota
pub mod Runner
use boxer.Base.{
  ℕ, suc, ◌+◌, String, Bool, Option, none, some, List, [], ◌∷◌, length, select, ltb, leb,
  if◌then◌else◌,
}
use boxer.Ipc.{Result, ok, err}
use boxer.Types.{VmRecord, QueueEntry, VmState, state_eq, processing, done, expired}
use boxer.Db.Schema.{Database}
use boxer.Db.Vms.{list_vms}
use boxer.Db.Queue.{enqueue, list_pending_queue, update_queue_status}
use boxer.Capacity.{Float, HostStatus}

-- Why a request is denied, with the numbers of the message (those of RAM are floats, left out).
pub data Reason : Type 0 where
  insufficient_ram : Reason
  insufficient_vcpus : ℕ → ℕ → Reason
  too_many_running : ℕ → ℕ → Reason
  disk_limit_exceeded : ℕ → ℕ → ℕ → Reason

-- The caps of the configuration that admission reads.
pub record Caps : Type 0 where
  pub max_running_per_project : ℕ
  pub max_disk_per_project_gib : ℕ

unfoldable pub running_vms : List VmRecord → ℕ
running_vms vms = length (select (λ v. state_eq v.state VmState.running) vms)

-- sum(v.disk_gb for v in vms)
unfoldable pub used_disk : List VmRecord → ℕ
used_disk [] = 0
used_disk (v ∷ vms) = v.disk_gb + used_disk vms

module _ (float : Float) {Request : Type 0} where
  -- `none` admits the request.
  unfoldable pub check_admission :
      Caps → HostStatus float → String → ℕ → ℕ → ℕ → Database Request → Option Reason
  check_admission caps status project_id cpu ram_mb disk_gb db =
      let project_vms = list_vms (some project_id) db in
      let running = running_vms project_vms in
      let used = used_disk project_vms in
      if float.greater (float.of_mib ram_mb) status.free_ram_gib
      then some insufficient_ram
      else if ltb status.free_vcpus cpu
      then some (insufficient_vcpus cpu status.free_vcpus)
      else if leb caps.max_running_per_project running
      then some (too_many_running running caps.max_running_per_project)
      else if ltb caps.max_disk_per_project_gib (used + disk_gb)
      then some (disk_limit_exceeded used disk_gb caps.max_disk_per_project_gib)
      else none

-- What the runner needs of the daemon: the sizes that a request names (`request.get`), the state of
-- the host, and the creation of a machine, on the database and a world of the daemon's own.
pub record Runtime (float : Float) (Request World : Type 0) : Type 0 where
  pub caps : Caps
  pub cpu : Request → Option ℕ
  pub ram_mb : Request → Option ℕ
  pub disk_gb : Request → Option ℕ
  pub status : World → HostStatus float
  pub vm_create_fn :
      Request → Database Request × World → Result (Unit {0}) × (Database Request × World)

-- request.get(key, default)
abbrev pub default_to : ℕ → Option ℕ → ℕ
default_to d none = d
default_to d (some n) = n

-- The `try` around the creation: the entry is done, or expired if an exception came out.
unfoldable pub conclude :
    {Request World : Type 0}
    → String
    → Result (Unit {0})
    → Database Request × World
    → Database Request × World
conclude entry_id (ok _) (db, world) = (update_queue_status entry_id done db, world)
conclude entry_id (err _) (db, world) = (update_queue_status entry_id expired db, world)

module _ {float : Float} {Request World : Type 0} (runtime : Runtime float Request World) where
  unfoldable pub admits : QueueEntry Request → Database Request × World → Option Reason
  admits entry (db, world) =
      check_admission float runtime.caps (runtime.status world) entry.project_id
        (default_to 2 (runtime.cpu entry.request)) (default_to 2048 (runtime.ram_mb entry.request))
        (default_to 20 (runtime.disk_gb entry.request)) db

  unfoldable pub promote : QueueEntry Request → Database Request × World → Database Request × World
  unfolding conclude
  promote entry (db, world) =
      let (result, state) =
        runtime.vm_create_fn entry.request (update_queue_status entry.id processing db, world) in
      conclude entry.id result state

  unfoldable pub process_entry :
      QueueEntry Request → Database Request × World → Database Request × World
  process_entry entry state = elim (admits entry state) [
    | none ↦ promote entry state
    | some reason ↦ state
  ]

  unfoldable pub process_entries :
      List (QueueEntry Request) → Database Request × World → Database Request × World
  process_entries [] state = state
  process_entries (entry ∷ entries) state = process_entries entries (process_entry entry state)

  -- The entries are read once, at the start of the round.
  unfoldable pub process_queue : Database Request × World → Database Request × World
  process_queue (db, world) = process_entries (list_pending_queue db) (db, world)
