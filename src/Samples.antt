-- ===== src/Samples.antt =====
-- Concrete data for the tests: two callers, a project with one machine, and a host that answers every
-- call. The world of the host is its clock.
pub mod Requests
use boxer.Base.{if◌then◌else◌, ℕ, ◌+◌, ◌-◌, true, false, none, some, [], ◌∷◌, ltb, refl}
use boxer.Ipc.{ok}
use boxer.Types.{
  VmRecord, CallerIdentity, VmState, Origin, ArtifactType, Kind, QueueEntry, QueueStatus,
}
use boxer.Db.Schema.{Database, VmRow, empty}
use boxer.Db.WellFormed.{IsWellFormed}
use boxer.Capacity.{Float, HostStatus}
use boxer.Scheduler.{Caps, Runtime}
use boxer.Services.{Services, Ops}
use boxer.Daemon.Lifecycle.{Network}
use boxer.LeaseManager.{LeaseConfig}
use boxer.Reconcile.{Libvirt}

abbrev pub box : VmRecord
box = record {
  id = "vm_a1b2c3";
  libvirt_name = "Boxer--p_1--build--vm_a1b2c3";
  project_id = "p_1";
  display_name = "build";
  state = VmState.running;
  owner_user = "ada";
  template = "debian-12";
  cpu = 2;
  ram_mb = 2048;
  disk_gb = 20;
  headless = true;
  created_at = 100;
  last_touched = 100;
  lease_until = 200;
  ip_address = none;
  tags = [];
  origin = Origin.by_boxer;
  artifact_type = ArtifactType.cloud_image;
  install_state = none;
  kind = Kind.vm;
}

-- A machine of the same project, not yet in the database.
abbrev pub spare : VmRecord
spare = record box {
  id = "vm_d4e5f6";
  libvirt_name = "Boxer--p_1--spare--vm_d4e5f6";
  disk_gb = 30;
  tags = ("role", "ci") ∷ [];
}

abbrev pub ada : CallerIdentity
ada = record { project_id = "p_1"; user = "ada"; is_admin = false }

abbrev pub eve : CallerIdentity
eve = record { project_id = "p_2"; user = "eve"; is_admin = false }

abbrev pub box_row : VmRow
box_row = record {
  id = "vm_a1b2c3";
  libvirt_name = "Boxer--p_1--build--vm_a1b2c3";
  project_id = "p_1";
  display_name = "build";
  state = VmState.running;
  owner_user = "ada";
  template = "debian-12";
  cpu = 2;
  ram_mb = 2048;
  disk_gb = 20;
  headless = 1;
  ip_address = none;
  created_at = 100;
  last_touched = 100;
  lease_until = 200;
  origin = Origin.by_boxer;
  artifact_type = ArtifactType.cloud_image;
  install_state = none;
  kind = Kind.vm;
}

abbrev pub spare_row : VmRow
spare_row = record box_row {
  id = "vm_d4e5f6";
  libvirt_name = "Boxer--p_1--spare--vm_d4e5f6";
  disk_gb = 30;
}

abbrev pub project_only : Database ℕ
project_only = record (empty ℕ) {
  projects = record { id = "p_1"; path = "/src"; first_seen = 100; last_seen = 100 } ∷ [];
}

abbrev pub entry : QueueEntry ℕ
entry = record {
  id = "q_1";
  project_id = "p_1";
  request = 7;
  priority = 0;
  status = QueueStatus.pending;
  created_at = 90;
}

-- The project's machine runs, and one request waits.
abbrev pub one_machine : Database ℕ
one_machine = record project_only { vms = box_row ∷ []; queue = entry ∷ [] }

pub project_only-IsWellFormed : IsWellFormed project_only
project_only-IsWellFormed = record {
  project_ids = (refl, tt);
  vm_ids = tt;
  vm_names = tt;
  vm_projects = tt;
  tag_vms = tt;
  action_ids = tt;
  action_vms = tt;
}

pub one_machine-IsWellFormed : IsWellFormed one_machine
one_machine-IsWellFormed = record {
  project_ids = (refl, tt);
  vm_ids = (refl, tt);
  vm_names = (refl, tt);
  vm_projects = (refl, tt);
  tag_vms = tt;
  action_ids = tt;
  action_vms = tt;
}

-- RAM as a number of MiB.
abbrev pub whole : Float
whole = record {
  F = ℕ;
  zero_gib = 0;
  of_kib = λ n. n;
  of_mib = λ n. n;
  sub = λ m n. m - n;
  max_gib = λ m n. if ltb m n then n else m;
  round2 = λ n. n;
  greater = λ m n. ltb n m;
}

abbrev pub caps : Caps
caps = record { max_running_per_project = 3; max_disk_per_project_gib = 45 }

abbrev pub roomy : HostStatus whole
roomy = record {
  total_ram_gib = 65536;
  usable_ram_gib = 61440;
  free_ram_gib = 32768;
  host_threads = 16;
  max_vcpus = 14;
  used_vcpus = 2;
  free_vcpus = 12;
  running_vms = 1;
}

abbrev pub backend : Ops ℕ
backend = record {
  get_state = λ name world. VmState.running;
  start = λ name world. (ok tt, world + 1);
  stop = λ name graceful world. (ok tt, world + 1);
  undefine = λ name world. (ok tt, world + 1);
}

abbrev pub services : Services ℕ
services = record {
  clock = λ world. world;
  uuid4 = λ world. ("0f1e2d3c-4b5a", world);
  vm_ops = backend;
  emulator_ops = none;
  delete_vm_storage = λ project_id vm_id world. (ok tt, world);
  get_ip_via_guest_agent = λ name timeout world. (ok (some "10.0.0.5"), world);
  exec_ssh = none;
}

abbrev pub network : Network ℕ
network = record {
  has_active_vms = λ project_id world. (ok false, world);
  teardown_project_network = λ project_id world. (ok tt, world);
}

-- Every creation succeeds, and the sizes of a request are the defaults.
abbrev pub runtime : Runtime whole ℕ ℕ
runtime = record {
  caps = caps;
  cpu = λ request. none;
  ram_mb = λ request. none;
  disk_gb = λ request. none;
  status = λ world. roomy;
  vm_create_fn = λ request state. (ok tt, state);
}

abbrev pub lease_config : LeaseConfig
lease_config = record {
  stale_delete_grace_hours = 24;
  inactive_call_window_minutes = 60;
  inactive_call_threshold = 3;
  stale_force_shutdown_after_minutes = 30;
  project_call_log_retention_hours = 48;
  cleanup_process_snapshot_lines = 40;
}

-- One foreign domain and the project's machine; a domain has one disk, of 5 GiB.
abbrev pub libvirt : Libvirt (Unit {0}) ℕ
libvirt = record {
  list_all_domains = λ world. ok (
      ok (record { name = "router"; xml = tt; is_active = true })
      ∷ ok (record { name = "Boxer--p_1--build--vm_a1b2c3"; xml = tt; is_active = true })
      ∷ []);
  lookup_by_name = λ name world. some tt;
  has_domain = λ name world. true;
  disk_sources = λ xml. some (some (some "/disk.qcow2", none) ∷ []);
  virtual_size = λ path world. some 5_368_709_120;
}
