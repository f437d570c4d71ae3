-- ===== src/Daemon/Promotion.antt =====
-- `_create_vm_from_request` of boxerd/daemon.py: what the queue's runner calls on a request that
-- waited, and the runner with it.
pub mod Rules
pub mod Creates
pub mod Installs
pub mod Devices
pub mod Rounds
pub mod Quota
pub mod Constraints
use boxer.Base.{ℕ, Bool, false, Option}
use boxer.Ipc.{Result}
use boxer.Db.Schema.{Database}
use boxer.Capacity.{Float}
use boxer.Scheduler.{Runtime}
use boxer.Action.{pure, ◌>>=◌, ◌>>◌}
use boxer.Daemon.{Handler}
use boxer.Daemon.Hosting.{VmParams, JobType, Backends}
use boxer.Daemon.Request.{h_vm_request}
use boxer.Daemon.Installer.Request.{h_vm_request_installer}
use boxer.Daemon.Android.{AndroidHost, h_android_request}

module _ {float : Float} {World : Type 0} (backends : Backends float World)
    (android : AndroidHost World)
    (others : Database VmParams × World → Database VmParams × World) where
  abbrev pub promoted : VmParams → VmParams
  promoted request = record request { return_ssh_private_key = false; wait_install_seconds = 0 }

  abbrev pub dispatch : JobType → VmParams → Handler VmParams World (Unit {0})
  dispatch JobType.installer request = do h_vm_request_installer backends others request; pure tt
  dispatch JobType.android request = do h_android_request backends android request; pure tt
  dispatch JobType.machine request = do h_vm_request backends request; pure tt

  unfoldable pub create_vm_from_request : VmParams → Handler VmParams World (Unit {0})
  unfolding h_vm_request h_vm_request_installer h_android_request
  create_vm_from_request request = dispatch request.job_type (promoted request)

  -- What the daemon gives the runner.
  abbrev pub promotion : Runtime float VmParams World
  promotion = record {
    caps = backends.config.caps;
    cpu = λ request. request.cpu;
    ram_mb = λ request. request.ram_mb;
    disk_gb = λ request. request.disk_gb;
    status = backends.status;
    vm_create_fn = create_vm_from_request;
  }
