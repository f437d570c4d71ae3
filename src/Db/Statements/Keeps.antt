-- ===== src/Db/Statements/Keeps.antt =====
-- The constraints of the schema of boxerd/db.py under sessions of calls.
use boxer.Base.{◌≡◌, refl, List, [], ◌∷◌}
use boxer.Ipc.{Result, ok, err}
use boxer.Types.{QueueEntry, Event, ProjectNotification}
use boxer.Db.Schema.{Database, CallRow}
use boxer.Db.Vms.{
  update_vm_state, update_vm_ip, update_vm_lease, update_vm_install_state, touch_vm,
  purge_ghost_record,
}
use boxer.Db.Queue.{enqueue, update_queue_status, expire_old_queue_entries}
use boxer.Db.Activity.{record_project_call, prune_project_call_log}
use boxer.Db.Notices.{add_project_notification, mark_project_notifications_delivered, add_event}
use boxer.Db.WellFormed.{
  IsWellFormed, update_vm-IsWellFormed, delete_vm-IsWellFormed, insert_vm-IsWellFormed,
  upsert_project-IsWellFormed, upsert_cleanup_action-IsWellFormed,
  delete_cleanup_action-IsWellFormed,
}
use boxer.Db.Statements.{
  Statement, execute, after, session, upserts_project, inserts_vm, updates_state, updates_ip,
  updates_lease, updates_install_state, touches, deletes_vm, purges_ghost, upserts_action,
  deletes_action,
}

module _ {Request : Type 0} where
  after-IsWellFormed :
      (db : Database Request) (r : Result (Database Request))
      → IsWellFormed db
      → ((db' : Database Request) → r ≡ ok db' → IsWellFormed db')
      → IsWellFormed (after db r)
  after-IsWellFormed db (ok db') w f = f db' refl
  after-IsWellFormed db (err e) w f = w

  -- The queue, the events, the calls and the notifications are in no constraint.
  pub other-IsWellFormed :
      (db : Database Request) (queue : List (QueueEntry Request)) (events : List Event)
      (calls : List CallRow) (notes : List ProjectNotification)
      → IsWellFormed db
      → IsWellFormed (record db {
        queue = queue;
        events = events;
        project_call_log = calls;
        project_notifications = notes;
      })
  other-IsWellFormed db queue events calls notes w = record {
    project_ids = w.project_ids;
    vm_ids = w.vm_ids;
    vm_names = w.vm_names;
    vm_projects = w.vm_projects;
    tag_vms = w.tag_vms;
    action_ids = w.action_ids;
    action_vms = w.action_vms;
  }

  -- Every statement, refused or not, keeps the constraints.
  pub execute-IsWellFormed :
      (s : Statement Request) (db : Database Request)
      → IsWellFormed db
      → IsWellFormed (after db (execute s db))
  unfolding execute update_vm_state update_vm_ip update_vm_lease update_vm_install_state touch_vm
      purge_ghost_record enqueue update_queue_status expire_old_queue_entries record_project_call
      prune_project_call_log add_project_notification mark_project_notifications_delivered add_event
  execute-IsWellFormed (upserts_project id path now) db w =
      after-IsWellFormed db _ w λ db' e. upsert_project-IsWellFormed db w id path now e
  execute-IsWellFormed (inserts_vm vm) db w =
      after-IsWellFormed db _ w λ db' e. insert_vm-IsWellFormed db w vm e
  execute-IsWellFormed (updates_state id s now) db w =
      update_vm-IsWellFormed db id _ (λ _. refl) (λ _. refl) (λ _. refl) w
  execute-IsWellFormed (updates_ip id ip now) db w =
      update_vm-IsWellFormed db id _ (λ _. refl) (λ _. refl) (λ _. refl) w
  execute-IsWellFormed (updates_lease id t now) db w =
      update_vm-IsWellFormed db id _ (λ _. refl) (λ _. refl) (λ _. refl) w
  execute-IsWellFormed (updates_install_state id s now) db w =
      update_vm-IsWellFormed db id _ (λ _. refl) (λ _. refl) (λ _. refl) w
  execute-IsWellFormed (touches id now) db w =
      update_vm-IsWellFormed db id _ (λ _. refl) (λ _. refl) (λ _. refl) w
  execute-IsWellFormed (deletes_vm id) db w = delete_vm-IsWellFormed db id w
  execute-IsWellFormed (purges_ghost id) db w = delete_vm-IsWellFormed db id w
  execute-IsWellFormed (upserts_action a) db w =
      after-IsWellFormed db _ w λ db' e. upsert_cleanup_action-IsWellFormed db w a e
  execute-IsWellFormed (deletes_action id) db w = delete_cleanup_action-IsWellFormed db w id
  execute-IsWellFormed _ db w = other-IsWellFormed db _ _ _ _ w

  -- From a database that meets its constraints, any session of calls, refused ones included, leads
  -- to one that does: ids of projects and machines, domain names and the machines of cleanup
  -- actions are unique, and every machine has its project, every tag and every cleanup action its
  -- machine.
  pub session-IsWellFormed :
      (ss : List (Statement Request)) (db : Database Request)
      → IsWellFormed db
      → IsWellFormed (session ss db)
  unfolding session
  session-IsWellFormed [] db w = w
  session-IsWellFormed (s ∷ ss) db w =
      session-IsWellFormed ss (after db (execute s db)) (execute-IsWellFormed s db w)
