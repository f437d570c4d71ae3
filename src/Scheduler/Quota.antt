-- ===== src/Scheduler/Quota.antt =====
-- The disk cap of a project, from the check to the insertion of the machine.
use boxer.Base.{
  ℕ, ◌+◌, ◌≤◌, String, Bool, ◌≡◌, ◌≢◌, refl, ap, sym, ◌∙◌, none, some, List, [], ◌∷◌, ◌++◌, map,
  select, update_where, select-append, Bool-cases, inl, inr, ◌==◌, eq_iff, arith, if◌then◌else◌,
}
use boxer.Ipc.{ok}
use boxer.Types.{VmRecord}
use boxer.Db.Schema.{Database, VmRow}
use boxer.Db.Vms.{row_of, vm_from_row, get_tags, list_vms, in_project, insert_vm, by_id, update_vm}
use boxer.Capacity.{Float, HostStatus}
use boxer.Scheduler.{Caps, check_admission, used_disk}
use boxer.Scheduler.Admission.{check_admission_iff}

disk_of_rows : List VmRow → ℕ
disk_of_rows [] = 0
disk_of_rows (r ∷ rows) = r.disk_gb + disk_of_rows rows

-- The disk that the project's machines hold.
abbrev pub project_disk : {Request : Type 0} → String → Database Request → ℕ
project_disk project_id db = used_disk (list_vms (some project_id) db)

disk_of_rows-append :
    (xs ys : List VmRow) → disk_of_rows (xs ++ ys) ≡ disk_of_rows xs + disk_of_rows ys
unfolding disk_of_rows
disk_of_rows-append [] ys = omega arith
disk_of_rows-append (x ∷ xs) ys = omega (arith, disk_of_rows-append xs ys)

disk_of_rows-update :
    (project_id : String) (q : VmRow → Bool) (f : VmRow → VmRow) (rows : List VmRow)
    → ((r : VmRow) → (f r).project_id ≡ r.project_id)
    → ((r : VmRow) → (f r).disk_gb ≡ r.disk_gb)
    → disk_of_rows (select (in_project (some project_id)) (update_where q f rows))
      ≡ disk_of_rows (select (in_project (some project_id)) rows)
unfolding disk_of_rows
disk_of_rows-update project_id q f [] same_project same_disk = refl
disk_of_rows-update project_id q f (r ∷ rows) same_project same_disk = ground (
  arith,
  same_project r,
  same_disk r,
  disk_of_rows-update project_id q f rows same_project same_disk,
)

used_disk-rows :
    (f : VmRow → List (String × String)) (rows : List VmRow)
    → used_disk (map (λ r. vm_from_row r (f r)) rows) ≡ disk_of_rows rows
unfolding used_disk vm_from_row disk_of_rows
used_disk-rows f [] = refl
used_disk-rows f (r ∷ rows) = ap (◌+◌ r.disk_gb) (used_disk-rows f rows)

module _ {Request : Type 0} where
  project_disk-rows :
      (project_id : String) (db : Database Request)
      → project_disk project_id db ≡ disk_of_rows (select (in_project (some project_id)) db.vms)
  unfolding list_vms
  project_disk-rows project_id db =
      used_disk-rows (λ r. get_tags db r.id) (select (in_project (some project_id)) db.vms)

  inserted :
      (db : Database Request) (vm : VmRecord) (db' : Database Request)
      → insert_vm vm db ≡ ok db'
      → db.vms ++ row_of vm ∷ [] ≡ db'.vms
  unfolding insert_vm
  inserted db vm db' h = ground arith

  -- An accepted insertion adds the machine's disk to its own project, and nothing to any other
  -- project with a name.
  pub project_disk-insert_vm :
      (project_id : String) (db : Database Request) (vm : VmRecord) (db' : Database Request)
      → project_id ≢ ""
      → insert_vm vm db ≡ ok db'
      → project_disk project_id db'
        ≡ (if vm.project_id == project_id then vm.disk_gb else 0) + project_disk project_id db
  unfolding row_of disk_of_rows
  project_disk-insert_vm project_id db vm db' named h =
      let p = in_project (some project_id) in
      project_disk-rows project_id db'
      ∙ ap (λ (l : List VmRow). disk_of_rows (select p l)) (sym (inserted db vm db' h))
      ∙ ap disk_of_rows (select-append p db.vms (row_of vm ∷ []))
      ∙ disk_of_rows-append (select p db.vms) (select p (row_of vm ∷ []))
      ∙ rw (project_disk-rows project_id db) (ground (arith, eq_iff project_id "", named))

  -- No named project holds more disk than its cap.
  abbrev pub WithinQuota : Caps → Database Request → Type 0
  WithinQuota caps db =
      (project_id : String)
      → project_id ≢ ""
      → project_disk project_id db ≤ caps.max_disk_per_project_gib

  -- A machine that fits under its project's cap leaves every project within its own.
  pub insert_vm-WithinQuota :
      (caps : Caps) (vm : VmRecord) (db db' : Database Request)
      → WithinQuota caps db
      → project_disk vm.project_id db + vm.disk_gb ≤ caps.max_disk_per_project_gib
      → insert_vm vm db ≡ ok db'
      → WithinQuota caps db'
  insert_vm-WithinQuota caps vm db db' w fits h project_id named =
      rw (project_disk-insert_vm project_id db vm db' named h)
        (elim (Bool-cases (vm.project_id == project_id)) [
          | inl e ↦
              let same : vm.project_id ≡ project_id = (eq_iff vm.project_id project_id).0 e in
              rw e (omega (arith, fits, ap (λ (q : String). project_disk q db) same))
          | inr e ↦ rw e (omega (arith, w project_id named))
        ])

  -- If every project with a name is within its disk cap, and a machine is inserted in the database
  -- in which its sizes were admitted, every project with a name stays within its disk cap.
  pub admitted-WithinQuota :
      (float : Float) (caps : Caps) (status : HostStatus float) (cpu ram_mb : ℕ) (vm : VmRecord)
      (db db' : Database Request)
      → WithinQuota caps db
      → check_admission float caps status vm.project_id cpu ram_mb vm.disk_gb db ≡ none
      → insert_vm vm db ≡ ok db'
      → WithinQuota caps db'
  admitted-WithinQuota float caps status cpu ram_mb vm db db' w admitted h =
      let fits =
        (check_admission_iff float caps status vm.project_id cpu ram_mb vm.disk_gb db).0 admitted in
      insert_vm-WithinQuota caps vm db db' w fits.disk h

  -- The disk is that of the rows of the machines.
  pub project_disk-vms :
      (project_id : String) (db db' : Database Request)
      → db.vms ≡ db'.vms
      → project_disk project_id db ≡ project_disk project_id db'
  project_disk-vms project_id db db' same =
      project_disk-rows project_id db
      ∙ ap (λ rows. disk_of_rows (select (in_project (some project_id)) rows)) same
      ∙ sym (project_disk-rows project_id db')

  -- A change of a machine that keeps its project and its disk.
  pub project_disk-update_vm :
      (project_id vm_id : String) (f : VmRow → VmRow) (db : Database Request)
      → ((r : VmRow) → (f r).project_id ≡ r.project_id)
      → ((r : VmRow) → (f r).disk_gb ≡ r.disk_gb)
      → project_disk project_id (update_vm vm_id f db) ≡ project_disk project_id db
  project_disk-update_vm project_id vm_id f db same_project same_disk =
      project_disk-rows project_id (update_vm vm_id f db)
      ∙ disk_of_rows-update project_id (by_id vm_id) f db.vms same_project same_disk
      ∙ sym (project_disk-rows project_id db)
