-- ===== src/LeaseManager/Valid.antt =====
-- The scan of boxerd/lease_manager.py at a machine within its lease.
use boxer.Base.{
  ℕ, ◌≤◌, false, not, ◌&&◌, ◌≡◌, refl, none, Bool-cases, inl, inr, ltb, first-delete, arith,
}
use boxer.Ipc.{ok}
use boxer.Types.{VmRecord, state_eq, unknown}
use boxer.Db.Schema.{Database}
use boxer.Db.Vms.{update_vm_state}
use boxer.Db.Activity.{action_of, get_cleanup_action, delete_cleanup_action}
use boxer.Action.{◌>>=◌}
use boxer.Services.{Services, ops_for, now, query, observe, write}
use boxer.LeaseManager.{LeaseConfig, sync_state, scan_vm}

-- The scan of a machine whose lease has not ended raises nothing, does nothing to the host (no stop,
-- no undefine, no storage), and takes back a shutdown that was under way.
pub scan_vm-valid :
    {Request World : Type 0} (cfg : LeaseConfig) (services : Services World) (at : ℕ)
    (vm : VmRecord) (db : Database Request) (world : World)
    → at ≤ vm.lease_until
    → ((scan_vm cfg services at vm (db, world)).0 ≡ ok tt)
      × ((scan_vm cfg services at vm (db, world)).1.1 ≡ world)
      × (get_cleanup_action vm.id (scan_vm cfg services at vm (db, world)).1.0 ≡ none)
unfolding scan_vm sync_state now query observe write ◌>>=◌ get_cleanup_action delete_cleanup_action
    update_vm_state
scan_vm-valid cfg services at vm db world valid =
    let live = (ops_for services vm.kind).get_state vm.libvirt_name world in
    let kept : ltb vm.lease_until at ≡ false = ground arith in
    elim (Bool-cases (not (state_eq live unknown) && not (state_eq live vm.state))) [
      | inl e ↦ rw e (rw kept (refl, refl, first-delete (action_of vm.id) db.vm_cleanup_actions))
      | inr e ↦ rw e (rw kept (refl, refl, first-delete (action_of vm.id) db.vm_cleanup_actions))
    ]
