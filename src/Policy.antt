-- ===== src/Policy.antt =====
-- boxerd/policy.py: which caller may do what to which machine.
pub mod Isolation
use boxer.Base.{
  String, Bool, true, false, not, ◌&&◌, Option, none, some, List, [], ◌∷◌, any, ◌==◌, if◌then◌else◌,
}
use boxer.Ipc.{Result, ok, err, ipc_error, not_found, policy_violation}
use boxer.Types.{VmRecord, CallerIdentity}

abbrev pub ownership_required_actions : List String
ownership_required_actions =
    "vm.start" ∷ "vm.stop" ∷ "vm.restart" ∷ "vm.ssh_access" ∷ "vm.delete" ∷ "vm.extend_lease"
    ∷ "vm.snapshot" ∷ "vm.exec" ∷ "vm.push_files" ∷ "vm.pull" ∷ "vm.screenshot" ∷ "vm.input"
    ∷ "vm.serial_log" ∷ "vm.purge_ghost" ∷ "android.adb" ∷ "guest.sysinfo" ∷ "guest.services"
    ∷ "guest.logs" ∷ "guest.packages" ∷ []

abbrev pub admin_only_actions : List String
admin_only_actions = []

-- `x in {...}`
abbrev pub is_in : String → List String → Bool
is_in x = any λ y. x == y

-- The tests on a machine that is there.
unfoldable pub check_owner : CallerIdentity → VmRecord → Result (Unit {0})
check_owner caller vm =
    if caller.is_admin
    then ok tt
    else if not (vm.project_id == caller.project_id)
    then err (ipc_error policy_violation)
    else if not (vm.owner_user == caller.user)
    then err (ipc_error policy_violation)
    else ok tt

abbrev check_target : CallerIdentity → Option VmRecord → Result (Unit {0})
check_target caller none = err (ipc_error not_found)
check_target caller (some vm) = check_owner caller vm

unfoldable pub check : String → CallerIdentity → Option VmRecord → Result (Unit {0})
unfolding check_owner
check action caller vm =
    if is_in action admin_only_actions && not caller.is_admin
    then err (ipc_error policy_violation)
    else if is_in action ownership_required_actions
    then check_target caller vm
    else ok tt

unfoldable pub check_vm_list_visibility : CallerIdentity → VmRecord → Bool
check_vm_list_visibility caller vm =
    if caller.is_admin then true else vm.project_id == caller.project_id
