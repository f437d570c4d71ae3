-- ===== src/Samples/Requests.antt =====
-- Concrete data for the tests of requests: a host whose makers all succeed, and a request.
use boxer.Base.{ℕ, ◌+◌, true, false, none, some, [], ◌∷◌, refl}
use boxer.Ipc.{ok}
use boxer.Types.{QueueStatus}
use boxer.Db.Schema.{Database, empty}
use boxer.Db.WellFormed.{IsWellFormed}
use boxer.Json.{no_fields}
use boxer.Daemon.Hosting.{VmParams, JobType, Host, Backends}
use boxer.Daemon.Android.{AndroidHost}
use boxer.Samples.{ada, caps, services, roomy, whole}

abbrev pub request : VmParams
request = record {
  caller = ada;
  job_type = JobType.machine;
  fields = no_fields;
  template = some "debian-12";
  iso_path = none;
  install_method = none;
  purpose = some "build";
  headless = none;
  ttl_minutes = none;
  cpu = some 2;
  ram_mb = none;
  disk_gb = some 20;
  tags = [];
  ssh_access = false;
  return_ssh_private_key = false;
  wait_for_ip_seconds = 30;
  wait_command = none;
  wait_timeout_seconds = 0;
  wait_install_seconds = 0;
  cores = none;
  data_gb = none;
  wait_boot_seconds = 0;
}

abbrev pub host : Host ℕ
host = record {
  catalog = λ name. some (record {
    default_cpu = some 2;
    default_ram_mb = none;
    default_disk_gb = some 10;
    is_iso = false;
    install_method = none;
  });
  ensure_image = λ name world. (ok "/images/base", world);
  ensure_iso = λ name world. (ok "/images/iso", world);
  vm_dir = λ project_id vm_id. "/vms";
  create_overlay = λ project_id vm_id base disk_gb world. (ok "/vms/disk", world + 1);
  create_blank_disk = λ project_id vm_id disk_gb format world. (ok "/vms/disk", world + 1);
  stage_iso = λ project_id vm_id iso world. (ok iso, world);
  prepare_readonly_file = λ path world. (ok tt, world);
  prepare_mutable_file = λ path world. (ok tt, world);
  ensure_keypair = λ dir vm_id world.
      (ok (record { public_key = "k"; private_key = "s"; private_key_path = "/k" }), world);
  build_cloud_init = λ options world. (ok ("/vms/seed", "/vms/config"), world);
  build_seed = λ options dir world. (ok "/vms/seed", world);
  ensure_project_network = λ project_id world. (ok "boxer-p_1", world);
  define_and_start = λ machine world. (ok tt, world + 1);
  define_and_start_installer = λ machine world. (ok tt, world + 1);
  switch_boot_to_disk = λ name world. (ok tt, world);
}

abbrev pub backends : Backends whole ℕ
backends = record {
  services = services;
  host = host;
  timer = record { loop_time = λ world. world; sleep = λ seconds world. world + seconds };
  platform = record {
    is_alnum = λ c. true;
    resolve = λ path. path;
    boxerctl_injection = none;
    exists = λ path world. true;
    is_file = λ path world. true;
    is_relative_to = λ path dir. true;
    file_name = λ path. path;
    lower = λ name. name;
  };
  config = record {
    default_ttl_minutes = 60;
    max_concurrent_installs = 2;
    max_concurrent_emulators = 1;
    boxer_ssh_pubkey = none;
    local_iso_dir = none;
    caps = caps;
  };
  status = λ world. roomy;
}

abbrev pub android : AndroidHost ℕ
android = record {
  catalog = λ template. some (record {
    package_spec = "system-images;android-34";
    device = none;
    api = "34";
    variant = "google_apis";
    abi = "x86_64";
    default_cores = none;
    default_ram_mb = none;
    default_data_gb = none;
  });
  require_ready = λ world. (ok tt, world);
  ensure_system_image = λ spec world. (ok tt, world);
  create_avd = λ name spec device data_gb world. (ok tt, world);
  launch = λ name ram_mb cores world.
      (ok (record { serial = "emulator-5554"; console_port = "5554" }), world + 1);
  wait_boot = λ serial seconds world. (ok true, world);
}

-- One project, no machine, and a request that waits.
abbrev pub waiting : Database VmParams
waiting = record (empty VmParams) {
  projects = record { id = "p_1"; path = "/src"; first_seen = 100; last_seen = 100 } ∷ [];
  queue =
      record {
        id = "q_1";
        project_id = "p_1";
        request = request;
        priority = 0;
        status = QueueStatus.pending;
        created_at = 90;
      }
      ∷ [];
}

pub waiting-IsWellFormed : IsWellFormed waiting
waiting-IsWellFormed = record {
  project_ids = (refl, tt);
  vm_ids = tt;
  vm_names = tt;
  vm_projects = tt;
  tag_vms = tt;
  action_ids = tt;
  action_vms = tt;
}
