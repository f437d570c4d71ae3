-- ===== src/Tests/Handlers.antt =====
-- The theorems on the handlers, at concrete data.
use boxer.Base.{pos, true, false, ◌≡◌, ◌↔◌, refl, none, some, inl, inr, eq_iff}
use boxer.Ipc.{ok}
use boxer.Types.{VmRecord}
use boxer.Db.Vms.{get_vm, update_vm_state, delete_vm, list_vms, get_tags, vm_from_row}
use boxer.Db.Notices
use boxer.Db.Notices.{list_pending_project_notifications, mark_project_notifications_delivered}
use boxer.Policy.Isolation.{MayUse, check_iff}
use boxer.Daemon.{target}
use boxer.Daemon.Lifecycle.{
  delete_machine, drop_network, h_vm_start, h_vm_stop, h_vm_restart, h_vm_delete, h_vm_extend_lease,
}
use boxer.Daemon.Tracking.{ImportRequest, h_vm_purge_ghost}
use boxer.Daemon.Isolation.{Refuses, handlers-Refuses}
use boxer.Daemon.Deletion.{h_vm_delete-gone, h_vm_delete-others}
use boxer.Daemon.Ghosts.{h_vm_purge_ghost-spares}
use boxer.Services.{ops_for, query, on_host, write, observe, now, new_id, add_event}
use boxer.Action.{◌>>=◌}
use boxer.Policy.{check}
use boxer.Samples.{box, ada, eve, one_machine, services, network, libvirt}

box_found : get_vm "vm_a1b2c3" one_machine ≡ some box
unfolding get_vm get_tags vm_from_row
box_found = refl

no : false ≡ true → ⊥
no h = cc

eve_may_not : MayUse eve box → ⊥
eve_may_not (inl h) = no h
eve_may_not (inr h) = no ((eq_iff "p_1" "p_2").1 h.1)

handlers-Refuses_example :
    Refuses (h_vm_start services 30 eve (some "vm_a1b2c3")) (one_machine, 150)
    × Refuses (h_vm_stop services true eve (some "vm_a1b2c3")) (one_machine, 150)
    × Refuses (h_vm_restart services true 30 eve (some "vm_a1b2c3")) (one_machine, 150)
    × Refuses (h_vm_delete services network eve (some "vm_a1b2c3")) (one_machine, 150)
    × Refuses (h_vm_extend_lease services (pos 60) eve (some "vm_a1b2c3")) (one_machine, 150)
handlers-Refuses_example =
    handlers-Refuses services network eve "vm_a1b2c3" box one_machine 150 true 30 (pos 60) refl
      box_found eve_may_not

h_vm_delete-gone_example :
    get_vm "vm_a1b2c3" (h_vm_delete services network ada (some "vm_a1b2c3") (one_machine, 150)).1.0
    ≡ none
unfolding h_vm_delete delete_machine drop_network target ops_for query on_host write observe now
    new_id add_event get_vm get_tags vm_from_row list_vms check ◌>>=◌ update_vm_state delete_vm
    Notices.add_event
h_vm_delete-gone_example =
    h_vm_delete-gone services network ada "vm_a1b2c3" one_machine 150 refl refl

h_vm_delete-others_example :
    get_vm "vm_d4e5f6" (h_vm_delete services network ada (some "vm_a1b2c3") (one_machine, 150)).1.0
    ≡ get_vm "vm_d4e5f6" one_machine
h_vm_delete-others_example =
    h_vm_delete-others services network ada "vm_a1b2c3" "vm_d4e5f6" one_machine 150 refl refl

h_vm_purge_ghost-spares_example :
    (h_vm_purge_ghost services libvirt ada (some "vm_a1b2c3") (one_machine, 150)).1
    ≡ (one_machine, 150)
h_vm_purge_ghost-spares_example =
    h_vm_purge_ghost-spares services libvirt ada "vm_a1b2c3" box one_machine 150 refl box_found refl

abbrev import_router : ImportRequest
import_router = record {
  libvirt_name = some "router";
  display_name = none;
  ttl_minutes = pos 60;
  project_id = none;
}

check_iff_example :
    (check "vm.delete" eve (some box) ≡ ok tt)
    ↔ ((vm : VmRecord) × (some box ≡ some vm) × MayUse eve vm)
check_iff_example = check_iff "vm.delete" eve (some box) refl
