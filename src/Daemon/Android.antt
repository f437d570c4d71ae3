-- ===== src/Daemon/Android.antt =====
-- android.request of boxerd/daemon.py: a device of the Android emulator on the host.
use Prim.Native.String.{◌++◌ as concat}
use boxer.Base.{
  ℕ, pos, String, Bool, true, not, ◌&&◌, ◌||◌, Option, none, some, List, [], ◌∷◌, ◌++◌, min, max,
  length, select, ltb, leb, eqb, if◌then◌else◌,
}
use boxer.Ipc.{Result, ok, err, ipc_error, invalid_params, require}
use boxer.Types.{VmRecord, running, state_eq, Level, Origin, ArtifactType, Kind, is_vm}
use boxer.Db.Projects.{upsert_project}
use boxer.Db.Vms.{insert_vm, list_vms}
use boxer.Capacity.{Float}
use boxer.Scheduler.{Reason}
use boxer.Names.{text, starts_with}
use boxer.Names.Patterns.{is_letter, is_digit, matches_class, matches_rest}
use boxer.Action.{pure, lift, ◌>>=◌, ◌>>◌}
use boxer.Services.{
  Services, ops_for, on_host, query, observe, write_checked, now, new_id, add_event,
}
use boxer.Json.{get}
use boxer.Daemon.{Handler, later}
use boxer.Daemon.Params.{caller_project_path}
use boxer.Daemon.Tracking.{make_vm_id}
use boxer.Daemon.Hosting.{VmParams, JobType, Backends, size_of, or_given}
use boxer.Daemon.Request.{admission, enqueue_request}

-- An entry of the Android catalog; an absent text is empty.
pub record AndroidEntry : Type 0 where
  pub package_spec : String
  pub device : Option String
  pub api : String
  pub variant : String
  pub abi : String
  pub default_cores : Option ℕ
  pub default_ram_mb : Option ℕ
  pub default_data_gb : Option ℕ

-- What a launch answers; the port as the text that the tag holds.
pub record Launch : Type 0 where
  pub serial : String
  pub console_port : String

-- The Android catalog, and the calls of `AndroidSDK` and `EmulatorOperations`.
pub record AndroidHost (World : Type 0) : Type 0 where
  pub catalog : Option String → Option AndroidEntry
  pub require_ready : World → Result (Unit {0}) × World
  pub ensure_system_image : String → World → Result (Unit {0}) × World
  pub create_avd : String → String → String → ℕ → World → Result (Unit {0}) × World
  pub launch : String → ℕ → ℕ → World → Result Launch × World
  pub wait_boot : String → ℕ → World → Result Bool × World

-- ^[A-Za-z0-9._-]{1,64}$
abbrev avd_char : ℕ → Bool
avd_char c = is_letter c || is_digit c || eqb c b'.' || eqb c b'_' || eqb c b'-'

unfoldable pub validate_avd_name : String → Result (Unit {0})
unfolding matches_rest
validate_avd_name name =
    require (matches_class avd_char avd_char 63 (text name)) (ipc_error invalid_params)

pub data AndroidDelay : Type 0 where
  emulators_running : ℕ → ℕ → AndroidDelay
  no_capacity : Reason → AndroidDelay

pub data AndroidAnswer : Type 0 where
  delayed : String → AndroidDelay → AndroidAnswer
  booted : VmRecord → Option Bool → AndroidAnswer

-- The sizes of a device.
pub record Device : Type 0 where
  pub cores : ℕ
  pub ram_mb : ℕ
  pub data_gb : ℕ

-- The caller's tags under keys of its own, and those of the device.
unfoldable pub device_tags : List (String × String) → AndroidEntry → Launch → List (String × String)
device_tags tags entry launched =
    select (λ t. not (starts_with (text "boxer.") (text t.0))) tags
    ++ ("boxer.android.api", entry.api)
      ∷ ("boxer.android.variant", entry.variant)
      ∷ ("boxer.android.abi", entry.abi)
      ∷ ("boxer.android.adb_serial", launched.serial)
      ∷ ("boxer.android.console_port", launched.console_port)
      ∷ []

abbrev known_image : Option AndroidEntry → Result AndroidEntry
known_image none = err (ipc_error invalid_params)
known_image (some entry) = ok entry

abbrev pub avd_name : String → String
avd_name vm_id = concat "boxer_" vm_id

abbrev pub device_record : VmParams → Device → AndroidEntry → Launch → String → ℕ → ℕ → VmRecord
device_record params device entry launched vm_id now lease_until = record {
  id = vm_id;
  libvirt_name = avd_name vm_id;
  project_id = params.caller.project_id;
  display_name = or_given params.purpose "android";
  state = running;
  owner_user = params.caller.user;
  template = or_given params.template "";
  cpu = device.cores;
  ram_mb = device.ram_mb;
  disk_gb = device.data_gb;
  headless = true;
  created_at = now;
  last_touched = now;
  lease_until = lease_until;
  ip_address = some launched.serial;
  tags = device_tags params.tags entry launched;
  origin = Origin.by_boxer;
  artifact_type = ArtifactType.android_emulator;
  install_state = none;
  kind = Kind.android;
}

module _ {float : Float} {World : Type 0} (backends : Backends float World)
    (android : AndroidHost World) where
  abbrev services : Services World
  services = backends.services

  abbrev pub runs : World → VmRecord → Bool
  runs world vm =
      not (is_vm vm.kind)
      && state_eq ((ops_for services Kind.android).get_state vm.libvirt_name world) running

  -- The caps of every machine first, then that of emulators.
  unfoldable pub android_admission : String → Device → Handler VmParams World (Option AndroidDelay)
  unfolding admission
  android_admission project_id device = do
    reason ← admission backends project_id device.cores device.ram_mb device.data_gb
    vms ← query (list_vms none)
    running_emulators ← observe (λ world. length (select (runs world) vms))
    pure (elim reason [
      | some r ↦ some (no_capacity r)
      | none ↦
          if leb backends.config.max_concurrent_emulators running_emulators
          then some (emulators_running running_emulators backends.config.max_concurrent_emulators)
          else none
    ])

  unfoldable pub add_device : VmRecord → String → Handler VmParams World (VmRecord × String)
  add_device vm serial = do
    write_checked (insert_vm vm)
    add_event services Level.info "device booted" (some vm.project_id) (some vm.id)
    pure (vm, serial)

  unfoldable pub create_device :
      VmParams → Device → AndroidEntry → Handler VmParams World (VmRecord × String)
  unfolding validate_avd_name add_device
  create_device params device entry = do
    uuid ← new_id services
    lift (validate_avd_name (avd_name (make_vm_id uuid)))
    t ← now services
    seen ← now services
    write_checked (
        upsert_project params.caller.project_id
          (caller_project_path backends.platform.resolve (get "caller_project_path" params.fields)
            params.caller.project_id)
          seen)
    on_host (android.ensure_system_image entry.package_spec)
    on_host (
        android.create_avd (avd_name (make_vm_id uuid)) entry.package_spec
          (or_given entry.device "pixel_6") device.data_gb)
    launched ← on_host (android.launch (avd_name (make_vm_id uuid)) device.ram_mb device.cores)
    add_device
        (device_record params device entry launched (make_vm_id uuid) t (
          later (or_given params.ttl_minutes (pos (max backends.config.default_ttl_minutes 90))) t))
        launched.serial

  abbrev pub device_of : VmParams → AndroidEntry → Device
  device_of params entry = record {
    cores = size_of params.cores entry.default_cores 4;
    ram_mb = size_of params.ram_mb entry.default_ram_mb 3072;
    data_gb = size_of params.data_gb entry.default_data_gb 6;
  }

  -- The request with the sizes by the names that the queue's runner reads.
  abbrev queued_device : VmParams → Device → VmParams
  queued_device params device = record params {
    job_type = JobType.android;
    cpu = some device.cores;
    ram_mb = some device.ram_mb;
    disk_gb = some device.data_gb;
  }

  unfoldable pub serve_android :
      VmParams → Device → AndroidEntry → Option AndroidDelay → Handler VmParams World AndroidAnswer
  unfolding create_device enqueue_request
  serve_android params device entry (some delay) = do
    id ← enqueue_request backends params.caller.project_id (queued_device params device)
    pure (delayed id delay)
  serve_android params device entry none = do
    made ← create_device params device entry
    if not (ltb 0 (min params.wait_boot_seconds 900)) then pure (booted made.0 none) else do
      is_up ← on_host (android.wait_boot made.1 (min params.wait_boot_seconds 900))
      pure (booted made.0 (some is_up))

  unfoldable pub h_android_request : VmParams → Handler VmParams World AndroidAnswer
  unfolding android_admission serve_android
  h_android_request params = do
    entry ← lift (known_image (android.catalog params.template))
    on_host android.require_ready
    delay ← android_admission params.caller.project_id (device_of params entry)
    serve_android params (device_of params entry) entry delay
