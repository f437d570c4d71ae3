-- ===== src/Scheduler/Runner.antt =====
-- The runner of the queue: what a round leaves behind.
use boxer.Base.{
  String, ◌≡◌, ◌≢◌, List, [], ◌∷◌, All, update_where, Bool-cases, Option-cases, inl, inr, ◌==◌,
  eq_iff,
}
use boxer.Ipc.{Result, ok, err}
use boxer.Types.{QueueEntry, QueueStatus, processing, done, expired}
use boxer.Db.Schema.{Database}
use boxer.Db.Queue.{update_queue_status, list_pending_queue}
use boxer.Capacity.{Float}
use boxer.Scheduler.{
  Runtime, admits, conclude, promote, process_entry, process_entries, process_queue,
}

module _ {Request : Type 0} where
  -- Every entry in progress has the id `k`.
  abbrev pub OnlyInProgress : String → Database Request → Type 0
  OnlyInProgress k db = All (λ e. (e.status ≡ processing) → e.id ≡ k) db.queue

  -- No entry is in progress.
  abbrev pub IsIdle : Database Request → Type 0
  IsIdle db = All (λ e. e.status ≢ processing) db.queue

  start-OnlyInProgress :
      (k : String) (es : List (QueueEntry Request))
      → All (λ e. e.status ≢ processing) es
      → All
          (λ e. (e.status ≡ processing) → e.id ≡ k)
          (update_where (λ e. e.id == k) (λ e. record e { status = processing }) es)
  start-OnlyInProgress k [] h = tt
  start-OnlyInProgress k (e ∷ es) h = elim (Bool-cases (e.id == k)) [
    | inl t ↦ rw t ((λ _. (eq_iff e.id k).0 t), start-OnlyInProgress k es h.1)
    | inr t ↦ rw t ((λ s. absurd (h.0 s)), start-OnlyInProgress k es h.1)
  ]

  finish-IsIdle :
      (k : String) (s : QueueStatus) (es : List (QueueEntry Request))
      → s ≢ processing
      → All (λ e. (e.status ≡ processing) → e.id ≡ k) es
      → All
          (λ e. e.status ≢ processing)
          (update_where (λ e. e.id == k) (λ e. record e { status = s }) es)
  finish-IsIdle k s [] n h = tt
  finish-IsIdle k s (e ∷ es) n h = elim (Bool-cases (e.id == k)) [
    | inl t ↦ rw t (n, finish-IsIdle k s es n h.1)
    | inr t ↦ rw t ((λ p. cc ((eq_iff e.id k).1 (h.0 p))), finish-IsIdle k s es n h.1)
  ]

  conclude-IsIdle :
      {World : Type 0} (k : String) (r : Result (Unit {0})) (state : Database Request × World)
      → OnlyInProgress k state.0
      → IsIdle (conclude k r state).0
  unfolding conclude update_queue_status
  conclude-IsIdle k (ok _) (db, world) h = finish-IsIdle k done db.queue (λ e. cc) h
  conclude-IsIdle k (err _) (db, world) h = finish-IsIdle k expired db.queue (λ e. cc) h

module _ {float : Float} {Request World : Type 0} (runtime : Runtime float Request World) where
  -- A creation puts no entry of the queue in progress: it may only append waiting ones.
  abbrev pub StartsNothing : Type 0
  StartsNothing =
      (request : Request) (k : String) (db : Database Request) (world : World)
      → OnlyInProgress k db
      → OnlyInProgress k (runtime.vm_create_fn request (db, world)).1.0

  module _ (starts : StartsNothing) where
    promote-IsIdle :
        (entry : QueueEntry Request) (state : Database Request × World)
        → IsIdle state.0
        → IsIdle (promote runtime entry state).0
    unfolding promote update_queue_status
    promote-IsIdle entry (db, world) h = conclude-IsIdle entry.id _ _ (
        starts entry.request entry.id (update_queue_status entry.id processing db) world
          (start-OnlyInProgress entry.id db.queue h))

    process_entry-IsIdle :
        (entry : QueueEntry Request) (state : Database Request × World)
        → IsIdle state.0
        → IsIdle (process_entry runtime entry state).0
    unfolding process_entry
    process_entry-IsIdle entry state h = elim (Option-cases (admits runtime entry state)) [
      | inl e ↦ rw (e, process_entry) (promote-IsIdle entry state h)
      | inr (reason, e) ↦ rw (e, process_entry) h
    ]

    process_entries-IsIdle :
        (entries : List (QueueEntry Request)) (state : Database Request × World)
        → IsIdle state.0
        → IsIdle (process_entries runtime entries state).0
    unfolding process_entries
    process_entries-IsIdle [] state h = h
    process_entries-IsIdle (entry ∷ entries) state h =
        process_entries-IsIdle entries _ (process_entry-IsIdle entry state h)

    -- A round that starts with no entry in progress ends so, whatever each creation returns or
    -- raises, if no creation puts an entry in progress itself.
    pub process_queue-IsIdle :
        (db : Database Request) (world : World)
        → IsIdle db
        → IsIdle (process_queue runtime (db, world)).0
    unfolding process_queue
    process_queue-IsIdle db world h = process_entries-IsIdle (list_pending_queue db) (db, world) h
