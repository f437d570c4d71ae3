-- ===== src/Policy/Isolation.antt =====
-- Who passes the check, stated without the code's order of tests.
use boxer.Base.{
  String, true, false, Option, none, some, ◌≡◌, ◌↔◌, ◌⊎◌, refl, sym, subst, arith, eq_iff,
}
use boxer.Ipc.{ok}
use boxer.Types.{VmRecord, CallerIdentity}
use boxer.Policy.{check, check_owner, is_in, ownership_required_actions, check_vm_list_visibility}

-- An administrator, or the user who owns the machine, from the project that owns it.
abbrev pub MayUse : CallerIdentity → VmRecord → Type 0
MayUse caller vm =
    (caller.is_admin ≡ true)
    ⊎ ((caller.is_admin ≡ false)
        × (vm.project_id ≡ caller.project_id)
        × (vm.owner_user ≡ caller.user))

-- A caller passes the ownership test exactly if it is an administrator, or the owning user in the
-- owning project.
pub check_owner_iff :
    (caller : CallerIdentity) (vm : VmRecord) → (check_owner caller vm ≡ ok tt) ↔ MayUse caller vm
unfolding check_owner
check_owner_iff caller vm = (
  λ h. ground (arith, eq_iff vm.project_id caller.project_id, eq_iff vm.owner_user caller.user),
  λ h. ground (arith, eq_iff vm.project_id caller.project_id, eq_iff vm.owner_user caller.user),
)

-- For each action that requires ownership: the check passes exactly if the machine exists and the
-- caller may use it.
pub check_iff :
    (action : String) (caller : CallerIdentity) (target : Option VmRecord)
    → is_in action ownership_required_actions ≡ true
    → (check action caller target ≡ ok tt)
      ↔ ((vm : VmRecord) × (target ≡ some vm) × MayUse caller vm)
unfolding check
check_iff action caller none h = (λ e. absurd (ground arith), λ t. absurd (ground arith))
check_iff action caller (some vm) h = (
  λ e. (vm, refl, (check_owner_iff caller vm).0 (ground arith)),
  λ t.
      let e : vm ≡ t.0 = cc (t.1) in
      rw h ((check_owner_iff caller vm).1 (subst (MayUse caller) (sym e) t.2)),
)

-- An owner sees the machine in listings; whoever sees it and is no administrator shares its project.
pub visible_iff :
    (caller : CallerIdentity) (vm : VmRecord)
    → (check_vm_list_visibility caller vm ≡ true)
      ↔ ((caller.is_admin ≡ true) ⊎ (vm.project_id ≡ caller.project_id))
unfolding check_vm_list_visibility
visible_iff caller vm = (
  λ h. ground (arith, eq_iff vm.project_id caller.project_id),
  λ h. ground (arith, eq_iff vm.project_id caller.project_id),
)
