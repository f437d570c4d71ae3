-- ===== src/Daemon/Installer.antt =====
-- vm.request_installer of boxerd/daemon.py: a machine that is installed, or only booted, from an ISO
-- image, and the watcher of the installation. Texts of answers are left out.
pub mod Watcher
pub mod Request
use Prim.Native.String.{◌++◌ as concat}
use boxer.Base.{
  ℕ, ℤ, pos, String, Bool, true, false, not, ◌&&◌, Option, none, some, List, [], ◌∷◌, ◌++◌, min,
  max, take, any, ltb, leb, ◌==◌, if◌then◌else◌,
}
use boxer.Ipc.{Result, ok, err, ipc_error, invalid_params, require, refuse, invalid}
use boxer.Types.{VmRecord, running, Level, Origin, ArtifactType, InstallState, installing, Kind}
use boxer.Db.Projects.{upsert_project}
use boxer.Db.Vms.{insert_vm, count_installing_vms}
use boxer.Capacity.{Float}
use boxer.Scheduler.{Reason}
use boxer.Names.{text, starts_with}
use boxer.Names.Strings.{string}
use boxer.Action.{Action, pure, raise, lift, recover, ◌>>=◌, ◌>>◌}
use boxer.Services.{Services, on_host, query, observe, write_checked, now, new_id, add_event}
use boxer.LeaseManager.{truthy}
use boxer.Json.{get}
use boxer.Daemon.{Handler, later}
use boxer.Daemon.Params.{caller_project_path}
use boxer.Daemon.Bootstrap.{BootstrapParams, bootstrap_from_params}
use boxer.Daemon.Tracking.{make_vm_id}
use boxer.Daemon.Hosting.{
  VmParams, JobType, CatalogEntry, Config, InstallerMachine, SeedOptions, Host, Platform, Backends,
  size_of, or_given,
}
use boxer.Daemon.Creation.{NewMachine, domain_name, new_record, or_delete_storage}
use boxer.Daemon.Request.{admission, enqueue_request}

-- The machine to make, and the image, the method and the flags of its installation.
pub record NewInstaller : Type 0 where
  pub new : NewMachine
  pub install_iso : String
  pub method : String
  pub test_boot : Bool
  pub stage_install_iso : Bool

-- Why a request waits: the cap of installers, or `check_admission`.
pub data Delay : Type 0 where
  installs_running : ℕ → ℕ → Delay
  no_capacity : Reason → Delay

abbrev pub supported_methods : List String
supported_methods = "ubuntu" ∷ "debian" ∷ "fedora" ∷ "rhel" ∷ "manual" ∷ []

abbrev pub installer_record : (ℕ → Bool) → NewInstaller → String → ℕ → VmRecord
installer_record is_alnum job vm_id now = record (new_record is_alnum job.new vm_id now) {
  artifact_type = ArtifactType.iso;
  install_state = if job.test_boot then none else some installing;
}

abbrev first_key : Option String → List String → List String
first_key none keys = keys
first_key (some key) keys = key ∷ keys

-- purpose[:20] or "boxer"
abbrev seed_hostname : String → String
seed_hostname purpose =
    let name = string (take 20 (text purpose)) in if name == "" then "boxer" else name

module _ {float : Float} {World : Type 0} (backends : Backends float World) where
  abbrev host : Host World
  host = backends.host

  abbrev services : Services World
  services = backends.services

  abbrev prepared_iso : NewInstaller → String → Handler VmParams World String
  prepared_iso job vm_id =
      if job.stage_install_iso
      then on_host (host.stage_iso job.new.caller.project_id vm_id job.install_iso)
      else (do on_host (host.prepare_readonly_file job.install_iso); pure job.install_iso)

  unfoldable pub provision_installer : NewInstaller → String → Handler VmParams World (Unit {0})
  unfolding or_delete_storage
  provision_installer job vm_id =
      let new = job.new in
      let project_id = new.caller.project_id in
      let dir = host.vm_dir project_id vm_id in
      let disk_format = if job.test_boot then "raw" else "qcow2" in
      do
        disk ← on_host (host.create_blank_disk project_id vm_id new.disk_gb disk_format)
        install_iso ← prepared_iso job vm_id
        seed_iso ← on_host (
            host.build_seed
              (record {
                method = job.method;
                hostname = seed_hostname new.purpose;
                ssh_authorized_keys =
                    first_key (truthy backends.config.boxer_ssh_pubkey)
                      new.bootstrap.ssh_public_keys;
                packages = new.bootstrap.packages;
              })
              dir)
        on_host (host.prepare_readonly_file seed_iso)
        net_name ← on_host (host.ensure_project_network project_id)
        on_host (host.prepare_mutable_file (concat dir "/serial.log"))
        or_delete_storage backends project_id vm_id (
            on_host (
              host.define_and_start_installer (record {
                libvirt_name = domain_name backends.platform.is_alnum project_id new.purpose vm_id;
                vm_id = vm_id;
                cpu = new.cpu;
                ram_mb = new.ram_mb;
                disk_path = disk;
                install_iso = install_iso;
                seed_iso = seed_iso;
                net_name = net_name;
                headless = new.headless;
                serial_log = concat dir "/serial.log";
                reboot_policy = if job.test_boot then "restart" else "destroy";
                disk_format = disk_format;
                emulate_nvme = job.test_boot;
              })))

  unfoldable pub add_installer : VmRecord → Handler VmParams World VmRecord
  add_installer vm = do
    write_checked (insert_vm vm)
    add_event services Level.info "started from an image" (some vm.project_id) (some vm.id)
    pure vm

  unfoldable pub create_installer_vm : NewInstaller → Handler VmParams World VmRecord
  unfolding provision_installer add_installer
  create_installer_vm job = do
    uuid ← new_id services
    t ← now services
    seen ← now services
    write_checked (upsert_project job.new.caller.project_id job.new.project_path seen)
    provision_installer job (make_vm_id uuid)
    add_installer (installer_record backends.platform.is_alnum job (make_vm_id uuid) t)

  -- The caps: that of installers first, then those of every machine.
  unfoldable pub installer_admission : NewMachine → Handler VmParams World (Option Delay)
  unfolding admission
  installer_admission new = do
    installs ← query count_installing_vms
    if leb backends.config.max_concurrent_installs installs
        then pure (some (installs_running installs backends.config.max_concurrent_installs))
        else (do
          reason ← admission backends new.caller.project_id new.cpu new.ram_mb new.disk_gb
          pure (elim reason [ none ↦ none | some r ↦ some (no_capacity r) ]))
