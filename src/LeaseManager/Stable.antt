-- ===== src/LeaseManager/Stable.antt =====
-- One induction over the code of the scan, for every property of the database that its statements
-- keep.
use boxer.Base.{ℕ, ◌-◌, String, Bool, true, ◌≡◌, Option, none, some, List, [], ◌∷◌, ltb, All}
use boxer.Ipc.{Result, ok}
use boxer.Types.{VmRecord, VmState, Level, CleanupAction}
use boxer.Db.Schema.{Database}
use boxer.Db.Vms.{list_vms, update_vm_state, update_vm_ip, delete_vm}
use boxer.Db.Queue.{expire_old_queue_entries}
use boxer.Db.Activity.{upsert_cleanup_action, delete_cleanup_action, prune_project_call_log}
use boxer.Db.Notices
use boxer.Action.{◌>>=◌}
use boxer.Action.Keeps.{Keeps, Keeps-bind, keeps_rules}
use boxer.Services.{
  Services, ExecResult, now, query, observe, write, write_checked, add_event,
  add_project_notification,
}
use boxer.Services.Keeps.{OnDb, Keeps-write, Keeps-write_checked, service_rules}
use boxer.LeaseManager.{
  LeaseConfig, Scan, hours, housekeeping, action_at, note_ip, known_ip, list_processes,
  snapshot_with, collect_process_snapshot, try_stop, request_graceful_shutdown, retry_later,
  forced_off, force_shutdown, cleanup_with, cleanup_running_stale_vm, delete_stale, auto_delete,
  note_stopped, scan_expired, sync_state, scan_vm, scan_vms, scan,
}

-- Each statement of the scan keeps `P`. A machine is deleted only if its lease ended before the
-- grace, so only then need its deletion keep `P`.
pub record IsStable {Request : Type 0} (cfg : LeaseConfig) (at : ℕ) (vm : VmRecord)
    (P : Database Request → Type 0) : Type 0 where
  pub state :
      (vm_id : String) (s : VmState) (t : ℕ) (db : Database Request)
      → P db
      → P (update_vm_state vm_id s t db)
  pub ip :
      (vm_id address : String) (t : ℕ) (db : Database Request)
      → P db
      → P (update_vm_ip vm_id address t db)
  pub deletion :
      ltb vm.lease_until (at - hours cfg.stale_delete_grace_hours) ≡ true
      → (db : Database Request) → P db
      → P (delete_vm vm.id db)
  pub action :
      (message : String) (db db' : Database Request)
      → P db
      → upsert_cleanup_action (action_at cfg vm at message) db ≡ ok db'
      → P db'
  pub no_action :
      (vm_id : String) (db : Database Request) → P db → P (delete_cleanup_action vm_id db)
  pub event :
      (id : String) (level : Level) (message : String) (project_id vm_id : Option String) (t : ℕ)
      (db : Database Request)
      → P db
      → P (Notices.add_event id level message project_id vm_id t db)
  pub notification :
      (id project_id : String) (level : Level) (message : String) (vm_id : Option String) (t : ℕ)
      (db : Database Request)
      → P db
      → P (Notices.add_project_notification id project_id level message vm_id t db)

module _ {Request World : Type 0} {P : Database Request → Type 0} (cfg : LeaseConfig)
    (services : Services World) (at : ℕ) (vm : VmRecord) (stable : IsStable cfg at vm P) where
  abbrev Kept : {A : Type 0} → Scan Request World A → Type 0
  Kept m = Keeps (OnDb P) m

  state-Kept : (vm_id : String) (s : VmState) (t : ℕ) → Kept (write (update_vm_state vm_id s t))
  state-Kept vm_id s t = Keeps-write _ (stable.state vm_id s t)

  ip-Kept : (vm_id address : String) (t : ℕ) → Kept (write (update_vm_ip vm_id address t))
  ip-Kept vm_id address t = Keeps-write _ (stable.ip vm_id address t)

  deletion-Kept :
      ltb vm.lease_until (at - hours cfg.stale_delete_grace_hours) ≡ true
      → Kept (write (delete_vm vm.id))
  deletion-Kept late = Keeps-write _ (stable.deletion late)

  action-Kept :
      (message : String)
      → Kept (write_checked (upsert_cleanup_action (action_at cfg vm at message)))
  action-Kept message = Keeps-write_checked _ (stable.action message)

  no_action-Kept : (vm_id : String) → Kept (write (delete_cleanup_action vm_id))
  no_action-Kept vm_id = Keeps-write _ (stable.no_action vm_id)

  event-Kept :
      (id : String) (level : Level) (message : String) (project_id vm_id : Option String) (t : ℕ)
      → Kept (write (Notices.add_event id level message project_id vm_id t))
  event-Kept id level message project_id vm_id t =
      Keeps-write _ (stable.event id level message project_id vm_id t)

  notification-Kept :
      (id project_id : String) (level : Level) (message : String) (vm_id : Option String) (t : ℕ)
      → Kept (write (Notices.add_project_notification id project_id level message vm_id t))
  notification-Kept id project_id level message vm_id t =
      Keeps-write _ (stable.notification id project_id level message vm_id t)

  ruleset kept_rules = (
    keeps_rules, service_rules, state-Kept, ip-Kept, deletion-Kept, action-Kept, no_action-Kept,
    event-Kept, notification-Kept,
  )

  add_event-Kept :
      (level : Level) (message : String) (project_id vm_id : Option String)
      → Kept (add_event services level message project_id vm_id)
  unfolding add_event
  add_event-Kept level message project_id vm_id = search kept_rules

  add_project_notification-Kept :
      (project_id : String) (level : Level) (message : String) (vm_id : Option String)
      → Kept (add_project_notification services project_id level message vm_id)
  unfolding add_project_notification
  add_project_notification-Kept project_id level message vm_id = search kept_rules

  note_ip-Kept : (found : Option String) → Kept (note_ip cfg services vm found)
  unfolding note_ip
  note_ip-Kept none = search kept_rules
  note_ip-Kept (some ip) = search kept_rules

  known_ip-Kept : (ip : Option String) → Kept (known_ip cfg services vm ip)
  unfolding known_ip
  known_ip-Kept (some ip) = search kept_rules
  known_ip-Kept none = search (kept_rules, note_ip-Kept)

  list_processes-Kept :
      (exec : String → String → World → Result ExecResult × World) (ip : Option String)
      → Kept (list_processes cfg services exec ip)
  unfolding list_processes
  list_processes-Kept exec none = search kept_rules
  list_processes-Kept exec (some ip) = search kept_rules

  snapshot_with-Kept :
      (exec : Option (String → String → World → Result ExecResult × World))
      → Kept (snapshot_with cfg services vm exec)
  unfolding snapshot_with
  snapshot_with-Kept none = search kept_rules
  snapshot_with-Kept (some exec) = search (kept_rules, known_ip-Kept, list_processes-Kept)

  collect-Kept : Kept (collect_process_snapshot cfg services vm)
  unfolding collect_process_snapshot
  collect-Kept = search (kept_rules, snapshot_with-Kept)

  try_stop-Kept : (graceful : Bool) → Kept (try_stop cfg services vm graceful)
  unfolding try_stop
  try_stop-Kept graceful = search kept_rules

  request-Kept : Kept (request_graceful_shutdown cfg services vm at)
  unfolding request_graceful_shutdown
  request-Kept = search (kept_rules, try_stop-Kept, add_event-Kept)

  retry-Kept : (message : String) → Kept (retry_later cfg services vm at message)
  unfolding retry_later
  retry-Kept message = search (kept_rules, add_event-Kept)

  forced-Kept : (live : VmState) → Kept (forced_off cfg services vm live)
  unfolding forced_off
  forced-Kept live = search (kept_rules, add_event-Kept, add_project_notification-Kept)

  force-Kept : Kept (force_shutdown cfg services vm at)
  unfolding force_shutdown
  force-Kept = search (kept_rules, collect-Kept, try_stop-Kept, retry-Kept, forced-Kept)

  cleanup_with-Kept :
      (action : Option CleanupAction) → Kept (cleanup_with cfg services vm at action)
  unfolding cleanup_with
  cleanup_with-Kept none = request-Kept
  cleanup_with-Kept (some action) = search (kept_rules, force-Kept)

  cleanup-Kept : (since : ℕ) → Kept (cleanup_running_stale_vm cfg services vm at since)
  unfolding cleanup_running_stale_vm
  cleanup-Kept since = search (kept_rules, cleanup_with-Kept)

  auto_delete-Kept :
      ltb vm.lease_until (at - hours cfg.stale_delete_grace_hours) ≡ true
      → Kept (auto_delete cfg services vm)
  unfolding auto_delete delete_stale
  auto_delete-Kept late = search (kept_rules, add_event-Kept) depth 8

  note_stopped-Kept : (action : Option CleanupAction) → Kept (note_stopped cfg services vm action)
  unfolding note_stopped
  note_stopped-Kept none = search kept_rules
  note_stopped-Kept (some action) = search (kept_rules, add_event-Kept)

  expired-Kept : (s : VmState) → Kept (scan_expired cfg services vm s at)
  unfolding scan_expired
  expired-Kept s =
      search (kept_rules, add_event-Kept, cleanup-Kept, note_stopped-Kept, auto_delete-Kept) depth 8

  sync-Kept : (live : VmState) → Kept (sync_state cfg services vm live)
  unfolding sync_state
  sync-Kept live = search kept_rules

  pub scan_vm-Kept : Kept (scan_vm cfg services at vm)
  unfolding scan_vm
  scan_vm-Kept = search (kept_rules, sync-Kept, expired-Kept)

module _ {Request World : Type 0} {P : Database Request → Type 0} (cfg : LeaseConfig)
    (services : Services World) where
  scan_vms-Kept :
      (at : ℕ) (vms : List VmRecord)
      → All (λ vm. IsStable cfg at vm P) vms
      → Keeps (OnDb P) (scan_vms cfg services at vms)
  unfolding scan_vms
  scan_vms-Kept at [] stable = search keeps_rules
  scan_vms-Kept at (vm ∷ vms) stable =
      Keeps-bind _ _ (scan_vm-Kept cfg services at vm stable.0) (λ _. scan_vms-Kept at vms stable.1)

  -- The statements after the loop.
  pub housekeeping-Kept :
      (datetime : ℕ → ℕ) (at : ℕ)
      → ((t : ℕ) (db : Database Request) → P db → P (expire_old_queue_entries datetime 2 t db).0)
      → ((t : ℕ) (db : Database Request) → P db → P (prune_project_call_log t db).0)
      → Keeps (OnDb P) (housekeeping cfg services datetime at)
  unfolding housekeeping
  housekeeping-Kept datetime at expiry pruning =
      Keeps-bind _ _ (search service_rules)
        λ t. Keeps-bind _ _ (Keeps-write _ (expiry t)) λ _. Keeps-write _ (pruning _)

  -- Whether the scan ends or raises, it keeps every property of the database that its statements
  -- keep.
  pub scan-Kept :
      (datetime : ℕ → ℕ) (db : Database Request) (world : World)
      → All (λ vm. IsStable cfg (services.clock world) vm P) (list_vms none db)
      → ((t : ℕ) (db : Database Request) → P db → P (expire_old_queue_entries datetime 2 t db).0)
      → ((t : ℕ) (db : Database Request) → P db → P (prune_project_call_log t db).0)
      → P db
      → P (scan cfg services datetime (db, world)).1.0
  unfolding scan now query observe ◌>>=◌
  scan-Kept datetime db world stable expiry pruning h =
      let at = services.clock world in
      ((Keeps-bind (scan_vms cfg services at (list_vms none db)) _
          (scan_vms-Kept at (list_vms none db) stable)
          (λ _. housekeeping-Kept datetime at expiry pruning)).at
        (db, world) (record { db = h })).db
