-- ===== src/Tests/Store.antt =====
-- The theorems on the database and on admission, at concrete data.
use boxer.Base.{
  ℕ, String, true, false, ◌≡◌, ◌≢◌, ◌↔◌, refl, none, some, [], ◌∷◌, select, arith, eq_iff,
}
use boxer.Ipc.{ok}
use boxer.Types.{is_pending}
use boxer.Db.Schema.{Database}
use boxer.Db.Vms.{get_vm, insert_vm, list_vms, row_of, insert_refused, insert_tags}
use boxer.Db.Queue.{list_pending_queue}
use boxer.Db.WellFormed.{IsWellFormed}
use boxer.Db.Statements.{session, inserts_vm, deletes_vm}
use boxer.Db.Statements.Keeps.{session-IsWellFormed}
use boxer.Db.RoundTrip.{get_vm-insert_vm}
use boxer.Db.Order.{IsSorted, list_pending_queue-IsSorted}
use boxer.Scheduler.{check_admission, running_vms, used_disk, process_queue}
use boxer.Scheduler.Admission.{Fits, check_admission_iff}
use boxer.Scheduler.Quota.{WithinQuota, admitted-WithinQuota}
use boxer.Scheduler.Runner.{IsIdle, process_queue-IsIdle}
use mathlib.Core.List.{Perm}
use boxer.Samples.{
  box, spare, project_only, one_machine, box_row, spare_row, entry, one_machine-IsWellFormed, whole,
  caps, roomy, runtime,
}

no : false ≡ true → ⊥
no h = cc

named : ◌≢◌ {A = String} "p_1" ""
named h = no ((eq_iff "p_1" "").1 h)

session-IsWellFormed_example :
    IsWellFormed (session (inserts_vm spare ∷ deletes_vm "vm_a1b2c3" ∷ []) one_machine)
session-IsWellFormed_example =
    session-IsWellFormed (inserts_vm spare ∷ deletes_vm "vm_a1b2c3" ∷ []) one_machine
      one_machine-IsWellFormed

-- The database with both machines.
abbrev two_machines : Database ℕ
two_machines = record one_machine {
  vms = box_row ∷ spare_row ∷ [];
  vm_tags = record { vm_id = "vm_d4e5f6"; key = "role"; value = "ci" } ∷ [];
}

spare_inserted : insert_vm spare one_machine ≡ ok two_machines
unfolding insert_vm insert_refused row_of insert_tags
spare_inserted = refl

get_vm-insert_vm_example : get_vm "vm_d4e5f6" two_machines ≡ some spare
get_vm-insert_vm_example =
    get_vm-insert_vm one_machine one_machine-IsWellFormed spare two_machines (refl, tt)
      spare_inserted

list_pending_queue-IsSorted_example :
    IsSorted (list_pending_queue one_machine)
    × Perm (list_pending_queue one_machine) (select (λ e. is_pending e.status) (entry ∷ []))
list_pending_queue-IsSorted_example = list_pending_queue-IsSorted one_machine

admitted : check_admission whole caps roomy "p_1" 2 2048 20 project_only ≡ none
unfolding check_admission list_vms running_vms used_disk
admitted = refl

check_admission_iff_example :
    (check_admission whole caps roomy "p_1" 2 2048 20 project_only ≡ none)
    ↔ Fits whole caps roomy "p_1" 2 2048 20 project_only
check_admission_iff_example = check_admission_iff whole caps roomy "p_1" 2 2048 20 project_only

no_disk : WithinQuota caps project_only
unfolding list_vms used_disk
no_disk project_id named = omega arith

abbrev filled : Database ℕ
filled = record project_only { vms = box_row ∷ [] }

abbrev overfilled : Database ℕ
overfilled = record project_only {
  vms = box_row ∷ spare_row ∷ [];
  vm_tags = record { vm_id = "vm_d4e5f6"; key = "role"; value = "ci" } ∷ [];
}

box_inserted : insert_vm box project_only ≡ ok filled
unfolding insert_vm insert_refused row_of insert_tags
box_inserted = refl

admitted-WithinQuota_example : WithinQuota caps filled
admitted-WithinQuota_example =
    admitted-WithinQuota whole caps roomy 2 2048 box project_only filled no_disk admitted
      box_inserted

process_queue-IsIdle_example : IsIdle (process_queue runtime (one_machine, 150)).0
process_queue-IsIdle_example =
    process_queue-IsIdle runtime (λ request k db world h. h) one_machine 150 ((λ e. absurd cc), tt)
