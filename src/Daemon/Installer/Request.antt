-- ===== src/Daemon/Installer/Request.antt =====
-- vm.request_installer of boxerd/daemon.py: the image, the method and the sizes of an installation,
-- its admission, and its answer.
use Prim.Native.String.{◌++◌ as concat}
use boxer.Base.{
  ℕ, pos, String, Bool, true, false, ◌&&◌, Option, none, some, min, max, ltb, ◌==◌, if◌then◌else◌,
}
use boxer.Ipc.{Result, ok, err, ipc_error, invalid_params, require}
use boxer.Types.{VmRecord, InstallState}
use boxer.Db.Schema.{Database}
use boxer.Capacity.{Float}
use boxer.Profiles.{contains}
use boxer.Action.{pure, lift, ◌>>=◌, ◌>>◌}
use boxer.Services.{on_host, observe}
use boxer.LeaseManager.{truthy}
use boxer.Json.{get}
use boxer.Daemon.{Handler}
use boxer.Daemon.Params.{caller_project_path}
use boxer.Daemon.Bootstrap.{BootstrapParams, bootstrap_from_params}
use boxer.Daemon.Hosting.{VmParams, JobType, Backends, size_of, or_given, validate_local_iso_path}
use boxer.Daemon.Request.{enqueue_request, known}
use boxer.Daemon.Installer.{
  NewInstaller, Delay, supported_methods, create_installer_vm, installer_admission,
}
use boxer.Daemon.Installer.Watcher.{wait_for_install}

-- The answer: the id of the entry that waits, or the machine, its method, and the state of the
-- installation if it was waited for; `none` in that is "timeout".
pub data InstallAnswer : Type 0 where
  delayed : String → Delay → InstallAnswer
  test_booted : VmRecord → String → InstallAnswer
  watched : VmRecord → String → Option (Option InstallState) → InstallAnswer

-- What is known before admission.
pub record Source : Type 0 where
  pub install_iso : String
  pub method : String
  pub headless : Bool
  pub display_template : String
  pub cpu : ℕ
  pub ram_mb : ℕ
  pub disk_gb : ℕ
  pub is_local : Bool

-- Either a template or a path, not both.
abbrev one_source : Option String → Option String → Result (Unit {0})
one_source none none = err (ipc_error invalid_params)
one_source (some _) (some _) = err (ipc_error invalid_params)
one_source _ _ = ok tt

abbrev is_supported : String → Result (Unit {0})
is_supported method = require (contains method supported_methods) (ipc_error invalid_params)

module _ {float : Float} {World : Type 0} (backends : Backends float World) where
  abbrev method_of : Option String → String
  method_of method = backends.platform.lower (or_given method "manual")

  unfoldable pub local_source : VmParams → String → Handler VmParams World Source
  unfolding validate_local_iso_path
  local_source params path = do
    checked ← observe (validate_local_iso_path backends.platform backends.config.local_iso_dir path)
    iso ← lift checked
    lift (is_supported (method_of params.install_method))
    pure (record {
      install_iso = iso;
      method = method_of params.install_method;
      headless = or_given params.headless true;
      display_template = concat "local:" (backends.platform.file_name path);
      cpu = size_of params.cpu none 2;
      ram_mb = size_of params.ram_mb none 2048;
      disk_gb = size_of params.disk_gb none 20;
      is_local = true;
    })

  unfoldable pub catalog_source : VmParams → String → Handler VmParams World Source
  catalog_source params template = do
    entry ← lift (known (backends.host.catalog template))
    lift (require entry.is_iso (ipc_error invalid_params))
    lift (is_supported (method_of entry.install_method))
    iso ← on_host (backends.host.ensure_iso template)
    pure (record {
      install_iso = iso;
      method = method_of entry.install_method;
      headless =
          if method_of entry.install_method == "manual"
          then false
          else or_given params.headless false;
      display_template = template;
      cpu = size_of params.cpu entry.default_cpu 2;
      ram_mb = size_of params.ram_mb entry.default_ram_mb 2048;
      disk_gb = size_of params.disk_gb entry.default_disk_gb 20;
      is_local = false;
    })

  unfoldable pub source_of : VmParams → Handler VmParams World Source
  unfolding local_source catalog_source
  source_of params = elim (truthy params.iso_path) [
    | none ↦ catalog_source params (or_given params.template "")
    | some path ↦ local_source params path
  ]

  abbrev pub installer_of : VmParams → BootstrapParams → Source → NewInstaller
  installer_of params bootstrap source = record {
    new = record {
      caller = params.caller;
      project_path =
          caller_project_path backends.platform.resolve (get "caller_project_path" params.fields)
            params.caller.project_id;
      template = source.display_template;
      purpose = or_given params.purpose "install";
      headless = source.headless;
      ttl_minutes = or_given params.ttl_minutes (pos (max backends.config.default_ttl_minutes 180));
      cpu = source.cpu;
      ram_mb = source.ram_mb;
      disk_gb = source.disk_gb;
      tags = params.tags;
      bootstrap = bootstrap;
      ssh_access = false;
      include_private_key = false;
      wait_for_ip_seconds = 0;
    };
    install_iso = source.install_iso;
    method = source.method;
    test_boot = source.is_local && source.method == "manual";
    stage_install_iso = source.is_local;
  }

  module _ (others : Database VmParams × World → Database VmParams × World) where
    -- The answer on a machine that was started; `_watch_install` is a task of its own.
    unfoldable pub answer_started :
        VmParams → NewInstaller → VmRecord → Handler VmParams World InstallAnswer
    unfolding wait_for_install
    answer_started params job vm =
        if job.test_boot
        then pure (test_booted vm job.method)
        else if ltb 0 (min params.wait_install_seconds 1800)
        then (do
          state ← wait_for_install backends others vm.id (min params.wait_install_seconds 1800)
          pure (watched vm job.method (some state)))
        else pure (watched vm job.method none)

    unfoldable pub serve_installer :
        VmParams → NewInstaller → Option Delay → Handler VmParams World InstallAnswer
    unfolding create_installer_vm enqueue_request answer_started
    serve_installer params job (some delay) = do
      id ←
          enqueue_request backends params.caller.project_id
            (record params { job_type = JobType.installer })
      pure (delayed id delay)
    serve_installer params job none = do
      vm ← create_installer_vm backends job
      answer_started params job vm

    unfoldable pub h_vm_request_installer : VmParams → Handler VmParams World InstallAnswer
    unfolding source_of installer_admission serve_installer bootstrap_from_params
        caller_project_path
    h_vm_request_installer params = do
      lift (one_source (truthy params.template) (truthy params.iso_path))
      bootstrap ← lift (bootstrap_from_params backends.platform.boxerctl_injection params.fields)
      source ← source_of params
      delay ← installer_admission backends (installer_of params bootstrap source).new
      serve_installer params (installer_of params bootstrap source) delay
