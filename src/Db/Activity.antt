-- ===== src/Db/Activity.antt =====
-- The tables `project_call_log` and `vm_cleanup_actions` of boxerd/db.py.
use boxer.Base.{
  ℕ, String, Bool, ◌&&◌, List, [], ◌∷◌, ◌++◌, Option, length, first, select, delete_where, has,
  update_where, ltb, leb, ◌==◌, if◌then◌else◌,
}
use boxer.Ipc.{Result, ok, err, exception}
use boxer.Types.{CleanupAction}
use boxer.Db.Schema.{Database, CallRow}

abbrev pub action_of : String → CleanupAction → Bool
action_of vm_id a = a.vm_id == vm_id

-- INSERT ... ON CONFLICT(vm_id) DO UPDATE, which sets every other column.
unfoldable pub upserted_action : CleanupAction → List CleanupAction → List CleanupAction
upserted_action a rows =
    if has (λ r. r.vm_id) a.vm_id rows
    then update_where (action_of a.vm_id) (λ _. a) rows
    else rows ++ a ∷ []

-- called_at >= since
abbrev pub is_call_since : String → ℕ → CallRow → Bool
is_call_since project_id since c = c.project_id == project_id && leb since c.called_at

module _ {Request : Type 0} where
  unfoldable pub record_project_call :
      String → String → String → String → ℕ → Database Request → Database Request
  record_project_call call_id project_id method caller_user now db = record db {
    project_call_log =
        db.project_call_log
        ++ record {
          id = call_id;
          project_id = project_id;
          method = method;
          caller_user = caller_user;
          called_at = now;
        }
          ∷ [];
  }

  unfoldable pub count_project_calls_since : String → ℕ → Database Request → ℕ
  count_project_calls_since project_id since db =
      length (select (is_call_since project_id since) db.project_call_log)

  unfoldable pub prune_project_call_log : ℕ → Database Request → Database Request × ℕ
  prune_project_call_log older_than db = (
    record db {
      project_call_log = delete_where (λ c. ltb c.called_at older_than) db.project_call_log;
    },
    length (select (λ c. ltb c.called_at older_than) db.project_call_log),
  )

  unfoldable pub get_cleanup_action : String → Database Request → Option CleanupAction
  get_cleanup_action vm_id db = first (action_of vm_id) db.vm_cleanup_actions

  -- FOREIGN KEY vm_id
  unfoldable pub upsert_cleanup_action :
      CleanupAction → Database Request → Result (Database Request)
  unfolding upserted_action
  upsert_cleanup_action a db =
      if has (λ r. r.id) a.vm_id db.vms
      then ok (record db { vm_cleanup_actions = upserted_action a db.vm_cleanup_actions })
      else err (exception "IntegrityError")

  unfoldable pub delete_cleanup_action : String → Database Request → Database Request
  delete_cleanup_action vm_id db = record db {
    vm_cleanup_actions = delete_where (action_of vm_id) db.vm_cleanup_actions;
  }
