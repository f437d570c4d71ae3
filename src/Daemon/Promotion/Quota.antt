-- ===== src/Daemon/Promotion/Quota.antt =====
-- The disk caps under the requests of boxerd/daemon.py and under the runner of the queue.
use boxer.Base.{ℕ, ◌+◌, ◌≤◌, String, ◌≡◌, refl, some, arith}
use boxer.Ipc.{ok}
use boxer.Db.Projects.{upsert_project}
use boxer.Db.Vms.{update_vm_ip}
use boxer.Db.Queue.{enqueue}
use boxer.Db.Notices
use boxer.Capacity.{Float}
use boxer.Scheduler.{Caps}
use boxer.Scheduler.Admission.{check_admission_iff}
use boxer.Scheduler.Quota.{
  WithinQuota, project_disk, insert_vm-WithinQuota, project_disk-vms, project_disk-update_vm,
}
use boxer.Services.Keeps.{Ignores}
use boxer.Daemon.Hosting.{VmParams, Backends}
use boxer.Daemon.Request.{h_vm_request}
use boxer.Daemon.Installer.Request.{h_vm_request_installer}
use boxer.Daemon.Android.{AndroidHost, h_android_request}
use boxer.Daemon.Promotion.Rules.{Db, Admits}
use boxer.Daemon.Promotion.Creates.{h_vm_request-Keeps}
use boxer.Daemon.Promotion.Installs.{h_vm_request_installer-Keeps}
use boxer.Daemon.Promotion.Devices.{h_android_request-Keeps}

-- Room for so much disk in a project, beside the caps.
record HasRoom (caps : Caps) (project_id : String) (disk_gb : ℕ) (db : Db) : Type 0 where
  pub within : WithinQuota caps db
  pub room : project_disk project_id db + disk_gb ≤ caps.max_disk_per_project_gib

same_vms-WithinQuota :
    (caps : Caps) (db db' : Db) → db.vms ≡ db'.vms → WithinQuota caps db → WithinQuota caps db'
same_vms-WithinQuota caps db db' same w project_id named =
    omega (arith, project_disk-vms project_id db db' same, w project_id named)

upsert_project-vms :
    (id path : String) (t : ℕ) (db db' : Db)
    → upsert_project id path t db ≡ ok db'
    → db.vms ≡ db'.vms
unfolding upsert_project
upsert_project-vms id path t db db' h = ground arith

module _ {float : Float} {World : Type 0} (backends : Backends float World) where
  abbrev caps : Caps
  caps = backends.config.caps

  quota-Ignores : Ignores (WithinQuota {Request = VmParams} caps)
  unfolding Notices.add_event
  quota-Ignores = record {
    event = λ id message level project_id vm_id t db w. same_vms-WithinQuota caps db _ refl w;
  }

  quota-Admits : Admits backends (WithinQuota caps) (HasRoom caps)
  unfolding enqueue update_vm_ip
  quota-Admits = record {
    enough = λ project_id disk_gb db room. room.within;
    admitted = λ status project_id cpu ram_mb disk_gb db w admitted. record {
      within = w;
      room =
          ((check_admission_iff float caps status project_id cpu ram_mb disk_gb db).0
            admitted).disk;
    };
    upserted = λ project_id disk_gb id path t db db' room h. record {
      within = same_vms-WithinQuota caps db db' (upsert_project-vms id path t db db' h) room.within;
      room = omega (
        arith,
        room.room,
        project_disk-vms project_id db db' (upsert_project-vms id path t db db' h),
      );
    };
    inserted = λ vm db db' room h. insert_vm-WithinQuota caps vm db db' room.within room.room h;
    enqueued = λ id project_id request t db w. same_vms-WithinQuota caps db _ refl w;
    addressed = λ vm_id ip t db w project_id named. omega (
      arith,
      w project_id named,
      project_disk-update_vm project_id vm_id
          (λ r. record r { ip_address = some ip; last_touched = t }) db (λ r. refl) (λ r. refl),
    );
    events = quota-Ignores;
  }

  module _ (android : AndroidHost World) (others : Db × World → Db × World)
      (others_keep : (s : Db × World) → WithinQuota caps s.0 → WithinQuota caps (others s).0) where
    -- If every project with a name is within its disk cap, and the daemon's other tasks keep it so,
    -- it is so after vm.request, vm.request_installer and android.request, whether they return or
    -- raise, if no other request runs between the check and the insertion.
    pub requests-WithinQuota :
        (params : VmParams) (db : Db) (world : World)
        → WithinQuota caps db
        → WithinQuota caps (h_vm_request backends params (db, world)).1.0
          × WithinQuota caps (h_vm_request_installer backends others params (db, world)).1.0
          × WithinQuota caps (h_android_request backends android params (db, world)).1.0
    requests-WithinQuota params db world w = (
      ((h_vm_request-Keeps backends quota-Admits params).at (db, world) (record { db = w })).db,
      ((h_vm_request_installer-Keeps backends quota-Admits others others_keep params).at (db, world)
          (record { db = w })).db,
      ((h_android_request-Keeps backends android quota-Admits params).at (db, world)
          (record { db = w })).db,
    )
