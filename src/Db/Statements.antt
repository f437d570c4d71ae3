-- ===== src/Db/Statements.antt =====
-- The writing operations of `Database` in boxerd/db.py as data, and sessions of them.
pub mod Keeps
use boxer.Base.{ℕ, String, List, [], ◌∷◌, Option}
use boxer.Ipc.{Result, ok, err}
use boxer.Types.{VmRecord, VmState, InstallState, QueueStatus, CleanupAction, Level}
use boxer.Db.Schema.{Database}
use boxer.Db.Projects.{upsert_project}
use boxer.Db.Vms.{
  insert_vm, update_vm_state, update_vm_ip, update_vm_lease, update_vm_install_state, touch_vm,
  delete_vm, purge_ghost_record,
}
use boxer.Db.Queue.{enqueue, update_queue_status, expire_old_queue_entries}
use boxer.Db.Activity.{
  record_project_call, prune_project_call_log, upsert_cleanup_action, delete_cleanup_action,
}
use boxer.Db.Notices.{add_project_notification, mark_project_notifications_delivered, add_event}

-- One call of a method that writes, with the time and the generated id that it used.
pub data Statement (Request : Type 0) : Type 0 where
  upserts_project : String → String → ℕ → Statement Request
  inserts_vm : VmRecord → Statement Request
  updates_state : String → VmState → ℕ → Statement Request
  updates_ip : String → String → ℕ → Statement Request
  updates_lease : String → ℕ → ℕ → Statement Request
  updates_install_state : String → Option InstallState → ℕ → Statement Request
  touches : String → ℕ → Statement Request
  deletes_vm : String → Statement Request
  purges_ghost : String → Statement Request
  enqueues : String → String → Request → ℕ → Statement Request
  updates_queue : String → QueueStatus → Statement Request
  expires_queue : (ℕ → ℕ) → ℕ → ℕ → Statement Request
  records_call : String → String → String → String → ℕ → Statement Request
  prunes_calls : ℕ → Statement Request
  upserts_action : CleanupAction → Statement Request
  deletes_action : String → Statement Request
  notifies : String → String → Level → String → Option String → ℕ → Statement Request
  delivers : List String → ℕ → Statement Request
  adds_event : String → Level → String → Option String → Option String → ℕ → Statement Request

module _ {Request : Type 0} where
  unfoldable pub execute : Statement Request → Database Request → Result (Database Request)
  execute (upserts_project id path now) db = upsert_project id path now db
  execute (inserts_vm vm) db = insert_vm vm db
  execute (updates_state id s now) db = ok (update_vm_state id s now db)
  execute (updates_ip id ip now) db = ok (update_vm_ip id ip now db)
  execute (updates_lease id t now) db = ok (update_vm_lease id t now db)
  execute (updates_install_state id s now) db = ok (update_vm_install_state id s now db)
  execute (touches id now) db = ok (touch_vm id now db)
  execute (deletes_vm id) db = ok (delete_vm id db)
  execute (purges_ghost id) db = ok (purge_ghost_record id db)
  execute (enqueues id project request now) db = ok (enqueue id project request now db)
  execute (updates_queue id s) db = ok (update_queue_status id s db)
  execute (expires_queue datetime hours now) db =
      ok (expire_old_queue_entries datetime hours now db).0
  execute (records_call id project method user now) db =
      ok (record_project_call id project method user now db)
  execute (prunes_calls t) db = ok (prune_project_call_log t db).0
  execute (upserts_action a) db = upsert_cleanup_action a db
  execute (deletes_action id) db = ok (delete_cleanup_action id db)
  execute (notifies id project level message vm now) db =
      ok (add_project_notification id project level message vm now db)
  execute (delivers ids now) db = ok (mark_project_notifications_delivered ids now db)
  execute (adds_event id level message project vm now) db =
      ok (add_event id level message project vm now db)

  -- A refused statement changes nothing.
  abbrev pub after : Database Request → Result (Database Request) → Database Request
  after db (ok db') = db'
  after db (err e) = db

  unfoldable pub session : List (Statement Request) → Database Request → Database Request
  session [] db = db
  session (s ∷ rest) db = session rest (after db (execute s db))
