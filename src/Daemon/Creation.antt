-- ===== src/Daemon/Creation.antt =====
-- `_create_vm` of boxerd/daemon.py: the creation of a machine from a cloud image. The daemon's other
-- tasks do not run in between. The command line in the answer on SSH access is left out.
use Prim.Native.String.{◌++◌ as concat}
use boxer.Base.{
  ℕ, ℤ, String, Bool, not, Option, none, some, List, [], ◌∷◌, ◌++◌, min, max, take, ltb,
  if◌then◌else◌,
}
use boxer.Types.{VmRecord, running, CallerIdentity, Level, Origin, ArtifactType, Kind}
use boxer.Db.Projects.{upsert_project}
use boxer.Db.Vms.{insert_vm, update_vm_ip}
use boxer.Capacity.{Float}
use boxer.Names.{text, make_libvirt_name}
use boxer.Names.Strings.{string}
use boxer.Action.{pure, raise, recover, ◌>>=◌, ◌>>◌}
use boxer.Services.{Services, on_host, write, write_checked, now, new_id, add_event}
use boxer.LeaseManager.{truthy}
use boxer.Daemon.{Handler, later}
use boxer.Daemon.Bootstrap.{BootstrapParams}
use boxer.Daemon.Tracking.{make_vm_id}
use boxer.Daemon.Hosting.{VmParams, SshKeyMaterial, Host, Backends}

-- The arguments of `_create_vm`.
pub record NewMachine : Type 0 where
  pub caller : CallerIdentity
  pub project_path : String
  pub template : String
  pub purpose : String
  pub headless : Bool
  pub ttl_minutes : ℤ
  pub cpu : ℕ
  pub ram_mb : ℕ
  pub disk_gb : ℕ
  pub tags : List (String × String)
  pub bootstrap : BootstrapParams
  pub ssh_access : Bool
  pub include_private_key : Bool
  pub wait_for_ip_seconds : ℕ

-- `_ssh_access_payload`
pub record SshAccess : Type 0 where
  pub vm_id : String
  pub host : Option String
  pub public_key : String
  pub private_key_path : String
  pub private_key : Option String

pub record Created : Type 0 where
  pub vm : VmRecord
  pub ssh_access : Option SshAccess

-- s[:20]
abbrev hostname : String → String
hostname s = string (take 20 (text s))

abbrev pub domain_name : (ℕ → Bool) → String → String → String → String
domain_name is_alnum project_id purpose vm_id =
    string (make_libvirt_name is_alnum (text project_id) (text purpose) (text vm_id))

abbrev pub new_record : (ℕ → Bool) → NewMachine → String → ℕ → VmRecord
new_record is_alnum new vm_id now = record {
  id = vm_id;
  libvirt_name = domain_name is_alnum new.caller.project_id new.purpose vm_id;
  project_id = new.caller.project_id;
  display_name = new.purpose;
  state = running;
  owner_user = new.caller.user;
  template = new.template;
  cpu = new.cpu;
  ram_mb = new.ram_mb;
  disk_gb = new.disk_gb;
  headless = new.headless;
  created_at = now;
  last_touched = now;
  lease_until = later new.ttl_minutes now;
  ip_address = none;
  tags = new.tags;
  origin = Origin.by_boxer;
  artifact_type = ArtifactType.cloud_image;
  install_state = none;
  kind = Kind.vm;
}

unfoldable pub ssh_access_payload : VmRecord → SshKeyMaterial → Bool → SshAccess
ssh_access_payload vm key include_private_key = record {
  vm_id = vm.id;
  host = vm.ip_address;
  public_key = key.public_key;
  private_key_path = key.private_key_path;
  private_key = if include_private_key then some key.private_key else none;
}

abbrev access_of : NewMachine → VmRecord → Option SshKeyMaterial → Option SshAccess
access_of new vm none = none
access_of new vm (some key) = some (ssh_access_payload vm key new.include_private_key)

abbrev with_key : List String → Option SshKeyMaterial → List String
with_key keys none = keys
with_key keys (some key) = keys ++ key.public_key ∷ []

module _ {float : Float} {World : Type 0} (backends : Backends float World) where
  abbrev host : Host World
  host = backends.host

  abbrev services : Services World
  services = backends.services

  -- `except Exception`: the storage is deleted, and the exception goes on.
  unfoldable pub or_delete_storage :
      String → String → Handler VmParams World (Unit {0}) → Handler VmParams World (Unit {0})
  or_delete_storage project_id vm_id start =
      recover start λ e. do on_host (services.delete_vm_storage project_id vm_id); raise e

  keypair : NewMachine → String → String → Handler VmParams World (Option SshKeyMaterial)
  keypair new dir vm_id =
      if not new.ssh_access
      then pure none
      else do key ← on_host (host.ensure_keypair dir vm_id); pure (some key)

  -- The disk, the images and the domain of a new machine.
  unfoldable pub provision : NewMachine → String → Handler VmParams World (Option SshKeyMaterial)
  unfolding keypair or_delete_storage
  provision new vm_id =
      let project_id = new.caller.project_id in
      let dir = host.vm_dir project_id vm_id in
      do
        base ← on_host (host.ensure_image new.template)
        overlay ← on_host (host.create_overlay project_id vm_id base new.disk_gb)
        key ← keypair new dir vm_id
        isos ← on_host (
            host.build_cloud_init (record {
              vm_id = vm_id;
              dest_dir = dir;
              hostname = hostname new.purpose;
              ssh_pubkey = backends.config.boxer_ssh_pubkey;
              ssh_authorized_keys = with_key new.bootstrap.ssh_public_keys key;
              packages = new.bootstrap.packages;
              runcmd = new.bootstrap.commands;
              write_files = new.bootstrap.write_files;
            }))
        on_host (host.prepare_readonly_file isos.0)
        on_host (host.prepare_readonly_file isos.1)
        net_name ← on_host (host.ensure_project_network project_id)
        on_host (host.prepare_mutable_file (concat dir "/serial.log"))
        or_delete_storage project_id vm_id (
            on_host (
              host.define_and_start (record {
                libvirt_name = domain_name backends.platform.is_alnum project_id new.purpose vm_id;
                vm_id = vm_id;
                cpu = new.cpu;
                ram_mb = new.ram_mb;
                disk_path = overlay;
                cloud_init_iso = isos.0;
                configdrive_iso = isos.1;
                net_name = net_name;
                headless = new.headless;
                serial_log = concat dir "/serial.log";
              })))
        pure key

  abbrev pub noted_address : String → Option String → Handler VmParams World (Option String)
  noted_address vm_id none = pure none
  noted_address vm_id (some ip) = do
    t ← now services
    write (update_vm_ip vm_id ip t)
    pure (some ip)

  -- The address of the new machine, if it is waited for and comes; else `_poll_ip` looks for it in a
  -- task of its own.
  unfoldable pub first_address : ℕ → VmRecord → Handler VmParams World (Option String)
  first_address wait_for_ip_seconds vm = if not (ltb 0 wait_for_ip_seconds) then pure none else do
    ip ←
        on_host
          (services.get_ip_via_guest_agent vm.libvirt_name (max 1 (min wait_for_ip_seconds 300)))
    noted_address vm.id (truthy ip)

  -- What follows the start of the domain.
  unfoldable pub register :
      NewMachine → VmRecord → Option SshKeyMaterial → Handler VmParams World Created
  unfolding first_address
  register new vm key = do
    write_checked (insert_vm vm)
    ip ← first_address new.wait_for_ip_seconds vm
    add_event services Level.info "created" (some vm.project_id) (some vm.id)
    pure (record {
      vm = record vm { ip_address = ip };
      ssh_access = access_of new (record vm { ip_address = ip }) key;
    })

  unfoldable pub create_vm : NewMachine → Handler VmParams World Created
  unfolding provision register
  create_vm new = do
    uuid ← new_id services
    t ← now services
    seen ← now services
    write_checked (upsert_project new.caller.project_id new.project_path seen)
    key ← provision new (make_vm_id uuid)
    register new (new_record backends.platform.is_alnum new (make_vm_id uuid) t) key
