-- ===== src/Daemon/Isolation.antt =====
-- What the handlers of boxerd/daemon.py do for a caller who may not use the machine.
use boxer.Base.{ℤ, ℕ, String, Bool, false, ◌≡◌, refl, some, ◌==◌, eq_iff, arith}
use boxer.Ipc.{err, ipc_error, policy_violation}
use boxer.Types.{VmRecord, CallerIdentity}
use boxer.Db.Schema.{Database}
use boxer.Db.Vms.{get_vm}
use boxer.Policy.{check, check_owner}
use boxer.Policy.Isolation.{MayUse}
use boxer.Action.{◌>>=◌}
use boxer.Services.{Services, query}
use boxer.Daemon.{Handler, target}
use boxer.Daemon.Lifecycle.{
  Network, start_machine, delete_machine, h_vm_start, h_vm_stop, h_vm_restart, h_vm_delete,
  h_vm_extend_lease,
}

pub check_owner-refused :
    (caller : CallerIdentity) (vm : VmRecord)
    → (MayUse caller vm → ⊥)
    → check_owner caller vm ≡ err (ipc_error policy_violation)
unfolding check_owner
check_owner-refused caller vm h =
    ground (arith, eq_iff vm.project_id caller.project_id, eq_iff vm.owner_user caller.user)

-- A handler answers with the refusal and leaves the database and the host as they were.
abbrev pub Refuses :
    {Request World A : Type 0} → Handler Request World A → Database Request × World → Type 0
Refuses h s = h s ≡ (err (ipc_error policy_violation), s)

module _ {Request World : Type 0} (services : Services World) (network : Network World) where
  -- A caller who is no administrator and not both the machine's owning user and in its project can
  -- start, stop, restart, delete and prolong nothing: for an id that is given and found, each of
  -- the five handlers answers with a policy violation, and neither the database nor the host
  -- changes.
  pub handlers-Refuses :
      (caller : CallerIdentity) (vm_id : String) (vm : VmRecord) (db : Database Request)
      (world : World) (graceful : Bool) (wait : ℕ) (ttl_minutes : ℤ)
      → (vm_id == "") ≡ false
      → get_vm vm_id db ≡ some vm
      → (MayUse caller vm → ⊥)
      → Refuses (h_vm_start services wait caller (some vm_id)) (db, world)
        × Refuses (h_vm_stop services graceful caller (some vm_id)) (db, world)
        × Refuses (h_vm_restart services graceful wait caller (some vm_id)) (db, world)
        × Refuses (h_vm_delete services network caller (some vm_id)) (db, world)
        × Refuses (h_vm_extend_lease services ttl_minutes caller (some vm_id)) (db, world)
  unfolding h_vm_start h_vm_stop h_vm_restart h_vm_delete h_vm_extend_lease start_machine
      delete_machine target query check ◌>>=◌
  handlers-Refuses caller vm_id vm db world graceful wait ttl_minutes given found barred =
      rw given (rw found (rw (check_owner-refused caller vm barred) (refl, refl, refl, refl, refl)))
