-- ===== src/Daemon/Hosting.antt =====
-- What vm.request, vm.request_installer and android.request of boxerd/daemon.py work with: the parameters of a request
-- as read from its JSON object, the configuration, the catalog, and the makers of disks, images and
-- domains, each an operation on the world.
use boxer.Base.{ℕ, zero, suc, ℤ, String, Bool, true, Option, none, some, List}
use boxer.Ipc.{Result, ok, ipc_error, invalid_params, require, ◌>>◌}
use boxer.Names.{text, starts_with}
use boxer.Types.{CallerIdentity}
use boxer.Capacity.{Float, HostStatus}
use boxer.Services.{Services}
use boxer.Json.{Fields}
use boxer.Daemon.Bootstrap.{WriteFile}
use boxer.Scheduler.{Caps, default_to}

-- request.get("job_type"), which a queued request carries
pub data JobType : Type 0 where
  machine installer android : JobType

-- Sizes and times to wait are taken as natural numbers. The raw object stands in `fields`, for the
-- parameters that are checked one by one.
pub record VmParams : Type 0 where
  pub caller : CallerIdentity
  pub job_type : JobType
  pub fields : Fields
  pub template : Option String
  pub iso_path : Option String
  pub install_method : Option String
  pub purpose : Option String
  pub headless : Option Bool
  pub ttl_minutes : Option ℤ
  pub cpu : Option ℕ
  pub ram_mb : Option ℕ
  pub disk_gb : Option ℕ
  pub tags : List (String × String)
  pub ssh_access : Bool
  pub return_ssh_private_key : Bool
  pub wait_for_ip_seconds : ℕ
  pub wait_command : Option String
  pub wait_timeout_seconds : ℕ
  pub wait_install_seconds : ℕ
  pub cores : Option ℕ
  pub data_gb : Option ℕ
  pub wait_boot_seconds : ℕ

-- An entry of the image catalog.
pub record CatalogEntry : Type 0 where
  pub default_cpu : Option ℕ
  pub default_ram_mb : Option ℕ
  pub default_disk_gb : Option ℕ
  pub is_iso : Bool
  pub install_method : Option String

pub record Config : Type 0 where
  pub default_ttl_minutes : ℕ
  pub max_concurrent_installs : ℕ
  pub max_concurrent_emulators : ℕ
  pub boxer_ssh_pubkey : Option String
  pub local_iso_dir : Option String
  pub caps : Caps

-- The keyword arguments of `define_and_start`.
pub record Machine : Type 0 where
  pub libvirt_name : String
  pub vm_id : String
  pub cpu : ℕ
  pub ram_mb : ℕ
  pub disk_path : String
  pub cloud_init_iso : String
  pub configdrive_iso : String
  pub net_name : String
  pub headless : Bool
  pub serial_log : String

-- The keyword arguments of `define_and_start_installer`.
pub record InstallerMachine : Type 0 where
  pub libvirt_name : String
  pub vm_id : String
  pub cpu : ℕ
  pub ram_mb : ℕ
  pub disk_path : String
  pub install_iso : String
  pub seed_iso : String
  pub net_name : String
  pub headless : Bool
  pub serial_log : String
  pub reboot_policy : String
  pub disk_format : String
  pub emulate_nvme : Bool

-- The keyword arguments of `CloudInitBuilder.build`.
pub record CloudInit : Type 0 where
  pub vm_id : String
  pub dest_dir : String
  pub hostname : String
  pub ssh_pubkey : Option String
  pub ssh_authorized_keys : List String
  pub packages : List String
  pub runcmd : List String
  pub write_files : List WriteFile

pub record SeedOptions : Type 0 where
  pub method : String
  pub hostname : String
  pub ssh_authorized_keys : List String
  pub packages : List String

pub record SshKeyMaterial : Type 0 where
  pub public_key : String
  pub private_key : String
  pub private_key_path : String

-- The calls of `ImageManager`, `StorageManager`, `SSHKeyManager`, `CloudInitBuilder`,
-- `InstallerSeedBuilder`, `NetworkManager` and `VMOperations`.
pub record Host (World : Type 0) : Type 0 where
  pub catalog : String → Option CatalogEntry
  pub ensure_image : String → World → Result String × World
  pub ensure_iso : String → World → Result String × World
  pub vm_dir : String → String → String
  pub create_overlay : String → String → String → ℕ → World → Result String × World
  pub create_blank_disk : String → String → ℕ → String → World → Result String × World
  pub stage_iso : String → String → String → World → Result String × World
  pub prepare_readonly_file : String → World → Result (Unit {0}) × World
  pub prepare_mutable_file : String → World → Result (Unit {0}) × World
  pub ensure_keypair : String → String → World → Result SshKeyMaterial × World
  pub build_cloud_init : CloudInit → World → Result (String × String) × World
  pub build_seed : SeedOptions → String → World → Result String × World
  pub ensure_project_network : String → World → Result String × World
  pub define_and_start : Machine → World → Result (Unit {0}) × World
  pub define_and_start_installer : InstallerMachine → World → Result (Unit {0}) × World
  pub switch_boot_to_disk : String → World → Result (Unit {0}) × World

-- The event loop's clock in seconds, and a pause.
pub record Timer (World : Type 0) : Type 0 where
  pub loop_time : World → ℕ
  pub sleep : ℕ → World → World

-- Python's tables and the file system: `isalnum`, `Path(path).expanduser().resolve()`, the built
-- agent of the guest, and the tests of a path.
pub record Platform (World : Type 0) : Type 0 where
  pub is_alnum : ℕ → Bool
  pub resolve : String → String
  pub boxerctl_injection : Option (WriteFile × List String)
  pub exists : String → World → Bool
  pub is_file : String → World → Bool
  pub is_relative_to : String → String → Bool
  pub file_name : String → String
  pub lower : String → String

-- int(params.get(key) or entry.get(key, default)): zero is as none.
abbrev pub size_of : Option ℕ → Option ℕ → ℕ → ℕ
size_of none entry default = default_to default entry
size_of (some zero) entry default = default_to default entry
size_of (some (suc n)) entry default = suc n

-- params.get(key, default)
abbrev pub or_given {ℓ} : {A : Type ℓ} → Option A → A → A
or_given none default = default
or_given (some a) default = a

-- All that the handlers of requests are given.
pub record Backends (float : Float) (World : Type 0) : Type 0 where
  pub services : Services World
  pub host : Host World
  pub timer : Timer World
  pub platform : Platform World
  pub config : Config
  pub status : World → HostStatus float

-- _validate_local_iso_path
unfoldable pub validate_local_iso_path :
    {World : Type 0} → Platform World → Option String → String → World → Result String
validate_local_iso_path platform local_iso_dir path world = do
  require (starts_with (text "/") (text path)) (ipc_error invalid_params)
  require (platform.exists path world) (ipc_error invalid_params)
  require (platform.is_file path world) (ipc_error invalid_params)
  require
      (elim local_iso_dir [
        | none ↦ true
        | some dir ↦ platform.is_relative_to (platform.resolve path) (platform.resolve dir)
      ])
      (ipc_error invalid_params)
  ok (platform.resolve path)
