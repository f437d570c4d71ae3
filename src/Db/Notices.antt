-- ===== src/Db/Notices.antt =====
-- The tables `project_notifications` and `events` of boxerd/db.py.
use boxer.Base.{
  ℕ, String, Bool, true, false, not, ◌&&◌, List, [], ◌∷◌, ◌++◌, Option, none, some, select, any,
  take, update_where, ltb, leb, ◌==◌, if◌then◌else◌,
}
use boxer.Types.{Level, info, warn, error, Event, ProjectNotification}
use boxer.Db.Schema.{Database}

-- `details_json` is not kept: no operation reads it.
unfoldable pub insert_by_time :
    ProjectNotification → List ProjectNotification → List ProjectNotification
insert_by_time n [] = n ∷ []
insert_by_time n (x ∷ xs) =
    let rest = insert_by_time n xs in if leb n.created_at x.created_at then n ∷ x ∷ xs else x ∷ rest

-- ORDER BY created_at ASC
unfoldable pub oldest_first : List ProjectNotification → List ProjectNotification
unfolding insert_by_time
oldest_first [] = []
oldest_first (x ∷ xs) = insert_by_time x (oldest_first xs)

-- ORDER BY created_at DESC
unfoldable pub insert_newest : Event → List Event → List Event
insert_newest e [] = e ∷ []
insert_newest e (x ∷ xs) =
    let rest = insert_newest e xs in if leb x.created_at e.created_at then e ∷ x ∷ xs else x ∷ rest

unfoldable pub newest_first : List Event → List Event
unfolding insert_newest
newest_first [] = []
newest_first (x ∷ xs) = insert_newest x (newest_first xs)

abbrev pub is_waiting : String → ProjectNotification → Bool
is_waiting project_id n = n.project_id == project_id && not n.delivered

abbrev pub delivered_now : ℕ → ProjectNotification → ProjectNotification
delivered_now now n = record n { delivered = true; delivered_at = some now }

abbrev pub level_eq : Level → Level → Bool
level_eq info info = true
level_eq warn warn = true
level_eq error error = true
level_eq _ _ = false

-- created_at > since, if `since` is given
abbrev pub is_after : Option ℕ → Event → Bool
is_after none e = true
is_after (some t) e = ltb t e.created_at

abbrev pub has_level : Option Level → Event → Bool
has_level none e = true
has_level (some l) e = level_eq e.level l

module _ {Request : Type 0} where
  unfoldable pub add_project_notification :
      String → String → Level → String → Option String → ℕ → Database Request → Database Request
  add_project_notification note_id project_id level message vm_id now db = record db {
    project_notifications =
        db.project_notifications
        ++ record {
          id = note_id;
          project_id = project_id;
          vm_id = vm_id;
          level = level;
          message = message;
          delivered = false;
          created_at = now;
          delivered_at = none;
        }
          ∷ [];
  }

  unfoldable pub list_pending_project_notifications :
      String → ℕ → Database Request → List ProjectNotification
  unfolding oldest_first
  list_pending_project_notifications project_id limit db =
      take limit (oldest_first (select (is_waiting project_id) db.project_notifications))

  -- WHERE id IN (...); with no ids the source returns at once, and no row would match.
  unfoldable pub mark_project_notifications_delivered :
      List String → ℕ → Database Request → Database Request
  mark_project_notifications_delivered ids now db = record db {
    project_notifications =
        update_where (λ n. any (λ i. n.id == i) ids) (delivered_now now) db.project_notifications;
  }

  unfoldable pub add_event :
      String
      → Level
      → String
      → Option String
      → Option String
      → ℕ
      → Database Request
      → Database Request
  add_event event_id level message project_id vm_id now db = record db {
    events =
        db.events
        ++ record {
          id = event_id;
          project_id = project_id;
          vm_id = vm_id;
          level = level;
          message = message;
          created_at = now;
        }
          ∷ [];
  }

  unfoldable pub list_events : Option ℕ → Option Level → ℕ → Database Request → List Event
  unfolding newest_first
  list_events since level limit db =
      take limit (newest_first (select (λ e. is_after since e && has_level level e) db.events))
