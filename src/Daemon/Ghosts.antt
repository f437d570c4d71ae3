-- ===== src/Daemon/Ghosts.antt =====
-- The schema under the handlers of boxerd/daemon.py that change what is tracked, and what
-- vm.purge_ghost does about a domain that is there.
use boxer.Base.{String, true, false, ◌≡◌, refl, some, ◌==◌, inl, inr}
use boxer.Ipc.{Result-cases}
use boxer.Types.{VmRecord, CallerIdentity}
use boxer.Db.Schema.{Database}
use boxer.Db.Vms.{get_vm}
use boxer.Db.Notices
use boxer.Policy.{check, check_owner}
use boxer.Action.{◌>>=◌}
use boxer.Action.Keeps.{Keeps}
use boxer.Services.{Services, query, observe}
use boxer.Reconcile.{Libvirt}
use boxer.Daemon.Tracking.{h_vm_purge_ghost}

module _ {Request Xml World : Type 0} (services : Services World)
    (libvirt : Libvirt Xml World) where
  -- For an id that is given and found, vm.purge_ghost leaves the database and the host as they
  -- were if libvirt still has the machine's domain, whoever calls.
  pub h_vm_purge_ghost-spares :
      (caller : CallerIdentity) (id : String) (vm : VmRecord) (db : Database Request)
      (world : World)
      → (id == "") ≡ false
      → get_vm id db ≡ some vm
      → libvirt.has_domain vm.libvirt_name world ≡ true
      → (h_vm_purge_ghost services libvirt caller (some id) (db, world)).1 ≡ (db, world)
  unfolding h_vm_purge_ghost query observe check ◌>>=◌
  h_vm_purge_ghost-spares caller id vm db world given found alive = rw given (
      rw found (elim (Result-cases (check_owner caller vm)) [
        | inl e ↦ rw e (rw alive refl)
        | inr (e, r) ↦ rw r refl
      ]))
