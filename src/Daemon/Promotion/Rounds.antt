-- ===== src/Daemon/Promotion/Rounds.antt =====
-- A round of the queue's runner keeps an invariant that `Admits` the requests of boxerd/daemon.py.
use boxer.Base.{String, List, [], ◌∷◌, Option-cases, inl, inr}
use boxer.Ipc.{Result, ok, err}
use boxer.Types.{QueueEntry, QueueStatus, processing, done, expired}
use boxer.Db.Queue.{update_queue_status, list_pending_queue}
use boxer.Capacity.{Float}
use boxer.Scheduler.{
  admits as admits_entry, conclude, promote, process_entry, process_entries, process_queue,
}
use boxer.Action.Keeps.{Keeps, Keeps-bind, Keeps-pure}
use boxer.Services.Keeps.{OnDb}
use boxer.Daemon.Hosting.{VmParams, JobType, Backends}
use boxer.Daemon.Android.{AndroidHost}
use boxer.Daemon.Promotion.{create_vm_from_request, promotion, dispatch, promoted}
use boxer.Daemon.Promotion.Rules.{Db, Admits}
use boxer.Daemon.Promotion.Creates.{h_vm_request-Keeps}
use boxer.Daemon.Promotion.Installs.{h_vm_request_installer-Keeps}
use boxer.Daemon.Promotion.Devices.{h_android_request-Keeps}

module _ {float : Float} {World : Type 0} (backends : Backends float World)
    (android : AndroidHost World) (others : Db × World → Db × World) {P : Db → Type 0}
    {Room : String → _ → Db → Type 0} (admits : Admits backends P Room)
    (others_keep : (s : Db × World) → P s.0 → P (others s).0) where
  dispatch-Keeps :
      (job_type : JobType) (request : VmParams)
      → Keeps (OnDb P) (dispatch backends android others job_type request)
  dispatch-Keeps JobType.machine request =
      Keeps-bind _ _ (h_vm_request-Keeps backends admits request) λ _. Keeps-pure tt
  dispatch-Keeps JobType.installer request =
      Keeps-bind _ _ (h_vm_request_installer-Keeps backends admits others others_keep request)
        λ _. Keeps-pure tt
  dispatch-Keeps JobType.android request =
      Keeps-bind _ _ (h_android_request-Keeps backends android admits request) λ _. Keeps-pure tt

  pub create_vm_from_request-Keeps :
      (request : VmParams) → Keeps (OnDb P) (create_vm_from_request backends android others request)
  unfolding create_vm_from_request
  create_vm_from_request-Keeps request =
      dispatch-Keeps request.job_type (promoted backends android others request)

  module _
      (statuses : (id : String) (status : QueueStatus) (db : Db)
        → P db
        → P (update_queue_status id status db)) where
    conclude-Keeps :
        (id : String) (r : Result (Unit {0})) (state : Db × World)
        → P state.0
        → P (conclude id r state).0
    unfolding conclude
    conclude-Keeps id (ok _) (db, world) h = statuses id done db h
    conclude-Keeps id (err _) (db, world) h = statuses id expired db h

    promote-Keeps :
        (entry : QueueEntry VmParams) (state : Db × World)
        → P state.0
        → P (promote (promotion backends android others) entry state).0
    unfolding promote
    promote-Keeps entry (db, world) h = conclude-Keeps entry.id _ _ (
        ((create_vm_from_request-Keeps entry.request).at
          (update_queue_status entry.id processing db, world)
          (record { db = statuses entry.id processing db h })).db)

    process_entry-Keeps :
        (entry : QueueEntry VmParams) (state : Db × World)
        → P state.0
        → P (process_entry (promotion backends android others) entry state).0
    unfolding process_entry
    process_entry-Keeps entry state h =
        elim (Option-cases (admits_entry (promotion backends android others) entry state)) [
          | inl e ↦ rw (e, process_entry) (promote-Keeps entry state h)
          | inr (reason, e) ↦ rw (e, process_entry) h
        ]

    process_entries-Keeps :
        (entries : List (QueueEntry VmParams)) (state : Db × World)
        → P state.0
        → P (process_entries (promotion backends android others) entries state).0
    unfolding process_entries
    process_entries-Keeps [] state h = h
    process_entries-Keeps (entry ∷ entries) state h =
        process_entries-Keeps entries _ (process_entry-Keeps entry state h)

    pub process_queue-Keeps :
        (db : Db) (world : World)
        → P db
        → P (process_queue (promotion backends android others) (db, world)).0
    unfolding process_queue
    process_queue-Keeps db world h = process_entries-Keeps (list_pending_queue db) (db, world) h
