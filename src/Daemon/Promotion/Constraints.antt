-- ===== src/Daemon/Promotion/Constraints.antt =====
-- The constraints of the schema, and the entries in progress, under the requests of boxerd/daemon.py
-- and under the runner of the queue.
use boxer.Base.{ℕ, String, ◌≡◌, List, All, All-append, subst, arith}
use boxer.Ipc.{ok}
use boxer.Types.{VmRecord, QueueEntry, processing}
use boxer.Db.Projects.{upsert_project}
use boxer.Db.Vms.{insert_vm, update_vm_ip}
use boxer.Db.Queue.{enqueue}
use boxer.Db.Notices
use boxer.Capacity.{Float}
use boxer.Scheduler.{process_queue}
use boxer.Scheduler.Runner.{OnlyInProgress, IsIdle, StartsNothing, process_queue-IsIdle}
use boxer.Daemon.Hosting.{VmParams, Backends}
use boxer.Daemon.Android.{AndroidHost}
use boxer.Daemon.Promotion.{promotion}
use boxer.Daemon.Promotion.Rules.{Db, Admits}
use boxer.Daemon.Promotion.Rounds.{create_vm_from_request-Keeps}

module _ {float : Float} {World : Type 0} (backends : Backends float World) where
  upsert_project-queue :
      (id path : String) (t : ℕ) (db db' : Db)
      → upsert_project id path t db ≡ ok db'
      → db.queue ≡ db'.queue
  unfolding upsert_project
  upsert_project-queue id path t db db' h = ground arith

  insert_vm-queue : (vm : VmRecord) (db db' : Db) → insert_vm vm db ≡ ok db' → db.queue ≡ db'.queue
  unfolding insert_vm
  insert_vm-queue vm db db' h = ground arith

  abbrev ById : String → List (QueueEntry VmParams) → Type 0
  ById k = All (λ e. (e.status ≡ processing) → e.id ≡ k)

  progress-Admits :
      (k : String)
      → Admits backends (OnlyInProgress k) (λ project_id disk_gb db. OnlyInProgress k db)
  unfolding enqueue update_vm_ip Notices.add_event
  progress-Admits k = record {
    enough = λ project_id disk_gb db h. h;
    admitted = λ status project_id cpu ram_mb disk_gb db h admitted. h;
    upserted = λ project_id disk_gb id path t db db' h e.
        subst (ById k) (upsert_project-queue id path t db db' e) h;
    inserted = λ vm db db' h e. subst (ById k) (insert_vm-queue vm db db' e) h;
    enqueued = λ id project_id request t db h. All-append _ db.queue _ h ((λ q. absurd cc), tt);
    addressed = λ vm_id ip t db h. h;
    events = record { event = λ id message level project_id vm_id t db h. h };
  }

  module _ (android : AndroidHost World) (others : Db × World → Db × World) where
    -- The daemon's creation of machines fills what the runner needs: it puts no entry in progress.
    promotion-StartsNothing :
        ((k : String) (s : Db × World) → OnlyInProgress k s.0 → OnlyInProgress k (others s).0)
        → StartsNothing (promotion backends android others)
    promotion-StartsNothing others_keep request k db world h =
        ((create_vm_from_request-Keeps backends android others (progress-Admits k) (others_keep k)
            request).at
          (db, world) (record { db = h })).db

    -- If the daemon's other tasks put no entry of the queue in progress, a round of the runner with
    -- the daemon's own creation of machines that starts with no entry in progress ends so.
    pub promotion-IsIdle :
        ((k : String) (s : Db × World) → OnlyInProgress k s.0 → OnlyInProgress k (others s).0)
        → (db : Db) (world : World) → IsIdle db
        → IsIdle (process_queue (promotion backends android others) (db, world)).0
    promotion-IsIdle others_keep db world h =
        process_queue-IsIdle (promotion backends android others)
          (promotion-StartsNothing others_keep) db world h
