-- ===== src/Db/Queue.antt =====
-- The table `queue` of boxerd/db.py: requests that wait for capacity.
use boxer.Base.{
  ℕ, ◌-◌, ◌*◌, String, Bool, ◌&&◌, List, [], ◌∷◌, ◌++◌, Option, length, first, select, update_where,
  true, false, ltb, leb, ◌==◌, if◌then◌else◌,
}
use boxer.Types.{QueueEntry, QueueStatus, is_pending}
use boxer.Db.Schema.{Database}

-- ORDER BY priority DESC, created_at ASC: does `a` stand before `b`, or level with it?
unfoldable pub before : ℕ × ℕ → ℕ × ℕ → Bool
before (p, t) (q, u) = if ltb q p then true else if ltb p q then false else leb t u

module _ {Request : Type 0} where
  abbrev pub sort_key : QueueEntry Request → ℕ × ℕ
  sort_key e = (e.priority, e.created_at)

  -- Entries that are level keep the order of the table.
  unfoldable pub insert_sorted :
      QueueEntry Request → List (QueueEntry Request) → List (QueueEntry Request)
  insert_sorted e [] = e ∷ []
  insert_sorted e (x ∷ xs) =
      let rest = insert_sorted e xs in
      if before (sort_key e) (sort_key x) then e ∷ x ∷ xs else x ∷ rest

  unfoldable pub order_by : List (QueueEntry Request) → List (QueueEntry Request)
  unfolding insert_sorted
  order_by [] = []
  order_by (x ∷ xs) = insert_sorted x (order_by xs)

  unfoldable pub enqueue : String → String → Request → ℕ → Database Request → Database Request
  enqueue entry_id project_id request now db = record db {
    queue =
        db.queue
        ++ record {
          id = entry_id;
          project_id = project_id;
          request = request;
          priority = 0;
          status = QueueStatus.pending;
          created_at = now;
        }
          ∷ [];
  }

  unfoldable pub get_queue_entry : String → Database Request → Option (QueueEntry Request)
  get_queue_entry entry_id db = first (λ e. e.id == entry_id) db.queue

  unfoldable pub list_pending_queue : Database Request → List (QueueEntry Request)
  unfolding order_by
  list_pending_queue db = order_by (select (λ e. is_pending e.status) db.queue)

  unfoldable pub update_queue_status : String → QueueStatus → Database Request → Database Request
  update_queue_status entry_id status db = record db {
    queue = update_where (λ e. e.id == entry_id) (λ e. record e { status = status }) db.queue;
  }

  -- `datetime` is SQLite's function of that name: a time as the text that the query compares, here
  -- as a number.
  abbrev pub is_old : (ℕ → ℕ) → ℕ → ℕ → QueueEntry Request → Bool
  is_old datetime hours now e =
      is_pending e.status && ltb (datetime e.created_at) (datetime (now - hours * 3_600_000_000))

  -- The new tables, and the number of rows that changed.
  unfoldable pub expire_old_queue_entries :
      (ℕ → ℕ) → ℕ → ℕ → Database Request → Database Request × ℕ
  expire_old_queue_entries datetime hours now db = (
    record db {
      queue =
          update_where (is_old datetime hours now) (λ e. record e { status = QueueStatus.expired })
            db.queue;
    },
    length (select (is_old datetime hours now) db.queue),
  )
