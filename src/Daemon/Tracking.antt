-- ===== src/Daemon/Tracking.antt =====
-- The handlers vm.import, vm.adopt and vm.purge_ghost of boxerd/daemon.py, which change what the
-- database tracks and leave the domains alone.
use boxer.Base.{ℤ, ℕ, ◌+◌, String, true, Option, none, some, [], ◌++◌ as append, take}
use boxer.Ipc.{Result, ok, err, ipc_error, invalid_params, not_found, refuse}
use boxer.Types.{
  VmRecord, running, CallerIdentity, Level, Origin, imported, adopted, cloud_image, Kind,
}
use boxer.Names.{text}
use boxer.Names.Strings.{string}
use boxer.Db.Projects.{upsert_project}
use boxer.Db.Vms.{get_vm, get_vm_by_libvirt_name, insert_vm, purge_ghost_record}
use boxer.Policy.{check}
use boxer.Action.{pure, lift, ◌>>=◌, ◌>>◌}
use boxer.Services.{Services, query, observe, write, write_checked, now, new_id, add_event}
use boxer.LeaseManager.{truthy, minutes}
use boxer.Reconcile.{Libvirt, disk_gb_of, parse_name}
use boxer.Daemon.{Handler, required, later}

-- `_make_vm_id` of a UUID, whose first digits are those of its `hex`.
unfoldable pub make_vm_id : String → String
unfolding string
make_vm_id uuid = string (append (text "vm_") (take 6 (text uuid)))

-- x or y
abbrev pub or_else : Option String → String → String
or_else x y = elim (truthy x) [ none ↦ y | some s ↦ s ]

-- The parameters of vm.import.
pub record ImportRequest : Type 0 where
  pub libvirt_name : Option String
  pub display_name : Option String
  pub ttl_minutes : ℤ
  pub project_id : Option String

-- raise IPCError(ERR_NOT_FOUND, ...) for a domain that libvirt does not know
abbrev found : {A : Type 0} → Option A → Result A
found none = err (ipc_error not_found)
found (some a) = ok a

-- raise IPCError(ERR_INVALID_PARAMS, ...) for a machine that is tracked
abbrev untracked : Option VmRecord → Result (Unit {0})
untracked none = ok tt
untracked (some _) = err (ipc_error invalid_params)

abbrev well_named : {A : Type 0} → Option A → Result A
well_named none = err (ipc_error invalid_params)
well_named (some a) = ok a

-- The record of a domain that was made elsewhere; its sizes are not known, but for the disk.
abbrev pub tracked_record :
    Origin → String → String → String → String → String → String → ℕ → ℕ → ℕ → VmRecord
tracked_record origin template id libvirt_name project_id display_name owner_user disk_gb now
      lease_until =
    record {
      id = id;
      libvirt_name = libvirt_name;
      project_id = project_id;
      display_name = display_name;
      state = running;
      owner_user = owner_user;
      template = template;
      cpu = 0;
      ram_mb = 0;
      disk_gb = disk_gb;
      headless = true;
      created_at = now;
      last_touched = now;
      lease_until = lease_until;
      ip_address = none;
      tags = [];
      origin = origin;
      artifact_type = cloud_image;
      install_state = none;
      kind = Kind.vm;
    }

module _ {Request Xml World : Type 0} (services : Services World)
    (libvirt : Libvirt Xml World) where
  -- The end of both handlers: the project, the machine, the event.
  unfoldable pub track : VmRecord → String → Handler Request World VmRecord
  track vm message = do
    t ← now services
    write_checked (upsert_project vm.project_id "unknown" t)
    write_checked (insert_vm vm)
    add_event services Level.info message (some vm.project_id) (some vm.id)
    pure vm

  unfoldable pub h_vm_import : CallerIdentity → ImportRequest → Handler Request World VmRecord
  unfolding track
  h_vm_import caller request = do
    libvirt_name ← lift (required request.libvirt_name)
    domain ← observe (libvirt.lookup_by_name libvirt_name)
    xml ← lift (found domain)
    existing ← query (get_vm_by_libvirt_name libvirt_name)
    lift (untracked existing)
    disk_gb ← observe (disk_gb_of libvirt xml)
    uuid ← new_id services
    t ← now services
    track
        (tracked_record imported "imported" (make_vm_id uuid) libvirt_name
          (or_else request.project_id caller.project_id) (or_else request.display_name libvirt_name)
          caller.user disk_gb t (later request.ttl_minutes t))
        "imported"

  -- No policy is asked: any caller adopts any project's domain.
  unfoldable pub h_vm_adopt : ℕ → CallerIdentity → Option String → Handler Request World VmRecord
  unfolding track
  h_vm_adopt default_ttl_minutes caller name = do
    libvirt_name ← lift (required name)
    parsed ← lift (well_named (parse_name libvirt_name))
    domain ← observe (libvirt.lookup_by_name libvirt_name)
    xml ← lift (found domain)
    existing ← query (get_vm parsed.2)
    lift (untracked existing)
    disk_gb ← observe (disk_gb_of libvirt xml)
    t ← now services
    track
        (tracked_record adopted "adopted" parsed.2 libvirt_name parsed.0 parsed.1 caller.user
          disk_gb t (t + minutes default_ttl_minutes))
        "adopted"

  unfoldable pub h_vm_purge_ghost :
      CallerIdentity → Option String → Handler Request World (Unit {0})
  h_vm_purge_ghost caller vm_id = do
    id ← lift (required vm_id)
    target ← query (get_vm id)
    vm ← lift (found target)
    lift (check "vm.purge_ghost" caller (some vm))
    still_alive ← observe (libvirt.has_domain vm.libvirt_name)
    lift (refuse still_alive (ipc_error invalid_params))
    write (purge_ghost_record id)
    add_event services Level.info "purged" (some vm.project_id) (some id)
