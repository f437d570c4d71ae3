-- ===== src/LeaseManager.antt =====
-- `LeaseManager` of boxerd/lease_manager.py: the scan that stops and deletes machines past their
-- lease. Logging is left out; SQLite's function `datetime` is an argument.
pub mod Stable
pub mod Lawful
pub mod Valid
use boxer.Base.{
  ℕ, ◌+◌, ◌-◌, ◌*◌, min, max, String, Bool, true, false, not, ◌&&◌, ◌||◌, Option, none, some, List,
  [], ◌∷◌, take, ltb, leb, eqb, ◌==◌, if◌then◌else◌,
}
use boxer.Ipc.{Result, ok, err, Error}
use boxer.Types.{
  VmRecord, VmState, running, paused, stopping, stopped, error, unknown, pending, deleting,
  state_eq, Level, CleanupAction, is_vm, is_boxer,
}
use boxer.Db.Schema.{Database}
use boxer.Db.Vms.{list_vms, update_vm_state, update_vm_ip, delete_vm}
use boxer.Db.Queue.{expire_old_queue_entries}
use boxer.Db.Activity.{
  count_project_calls_since, get_cleanup_action, upsert_cleanup_action, delete_cleanup_action,
  prune_project_call_log,
}
use boxer.Action.{Action, pure, recover, gets, ◌>>=◌, ◌>>◌}
use boxer.Services.{
  Services, Ops, ExecResult, ops_for, on_host, query, observe, write, write_checked, now, add_event,
  add_project_notification,
}

pub record LeaseConfig : Type 0 where
  pub stale_delete_grace_hours : ℕ
  pub inactive_call_window_minutes : ℕ
  pub inactive_call_threshold : ℕ
  pub stale_force_shutdown_after_minutes : ℕ
  pub project_call_log_retention_hours : ℕ
  pub cleanup_process_snapshot_lines : ℕ

-- timedelta
abbrev pub minutes : ℕ → ℕ
minutes n = n * 60_000_000

abbrev pub hours : ℕ → ℕ
hours n = n * 3_600_000_000

-- What the guest's processes looked like before a forced shutdown.
pub data Snapshot : Type 0 where
  unavailable : Snapshot
  taken : Bool → List String → Snapshot

-- `if not ip_address`
abbrev pub truthy : Option String → Option String
truthy none = none
truthy (some ip) = if ip == "" then none else some ip

-- effective_state in ("running", "paused", "stopping")
abbrev pub is_live : VmState → Bool
is_live s = state_eq s running || state_eq s paused || state_eq s stopping

-- effective_state in ("stopped", "error", "unknown")
abbrev pub is_down : VmState → Bool
is_down s = state_eq s stopped || state_eq s error || state_eq s unknown

abbrev pub effective_state : VmState → VmState → VmState
effective_state live recorded = if state_eq live unknown then recorded else live

abbrev pub Scan : Type 0 → Type 0 → Type 0 → Type 0
Scan Request World = Action (Database Request × World)

unfoldable pub snapshot_of : LeaseConfig → ExecResult → Snapshot
snapshot_of cfg r =
    taken (eqb r.exit_code 0) (take (max 1 (min cfg.cleanup_process_snapshot_lines 100)) r.lines)

abbrev pub action_at : LeaseConfig → VmRecord → ℕ → String → CleanupAction
action_at cfg vm at message = record {
  vm_id = vm.id;
  project_id = vm.project_id;
  graceful_requested_at = at;
  force_after = at + minutes cfg.stale_force_shutdown_after_minutes;
  last_error = message;
}

module _ {Request World : Type 0} (cfg : LeaseConfig) (services : Services World) where
  note_ip : VmRecord → Option String → Scan Request World (Option String)
  note_ip vm none = pure none
  note_ip vm (some ip) = do at ← now services; write (update_vm_ip vm.id ip at); pure (some ip)

  known_ip : VmRecord → Option String → Scan Request World (Option String)
  known_ip vm (some ip) = pure (some ip)
  known_ip vm none = do
    found ← recover (on_host (services.get_ip_via_guest_agent vm.libvirt_name 5)) (λ _. pure none)
    note_ip vm (truthy found)

  list_processes :
      (String → String → World → Result ExecResult × World)
      → Option String
      → Scan Request World Snapshot
  list_processes exec none = pure unavailable
  list_processes exec (some ip) =
      recover (do r ← on_host (exec ip "ps"); pure (snapshot_of cfg r)) (λ _. pure unavailable)

  snapshot_with :
      VmRecord
      → Option (String → String → World → Result ExecResult × World)
      → Scan Request World Snapshot
  snapshot_with vm none = pure unavailable
  snapshot_with vm (some exec) = do ip ← known_ip vm (truthy vm.ip_address); list_processes exec ip

  unfoldable pub collect_process_snapshot : VmRecord → Scan Request World Snapshot
  unfolding note_ip known_ip snapshot_of list_processes snapshot_with
  collect_process_snapshot vm =
      if is_vm vm.kind then snapshot_with vm services.exec_ssh else pure unavailable

  -- The text of an exception is kept as one word.
  unfoldable pub try_stop : VmRecord → Bool → Scan Request World String
  try_stop vm graceful =
      recover (do on_host ((ops_for services vm.kind).stop vm.libvirt_name graceful); pure "")
        (λ _. pure "error")

  unfoldable pub request_graceful_shutdown : VmRecord → ℕ → Scan Request World (Unit {0})
  request_graceful_shutdown vm at = do
    failure ← try_stop vm true
    t ← now services
    write (update_vm_state vm.id stopping t)
    write_checked (upsert_cleanup_action (action_at cfg vm at failure))
    add_event services Level.warn "graceful shutdown requested" (some vm.project_id) (some vm.id)

  unfoldable pub retry_later : VmRecord → ℕ → String → Scan Request World (Unit {0})
  retry_later vm at failure = do
    write_checked (upsert_cleanup_action (action_at cfg vm at failure))
    add_event services Level.error "forced shutdown failed" (some vm.project_id) (some vm.id)

  unfoldable pub forced_off : VmRecord → VmState → Scan Request World (Unit {0})
  forced_off vm live = do
    t ← now services
    write (update_vm_state vm.id (if state_eq live unknown then unknown else stopped) t)
    write (delete_cleanup_action vm.id)
    add_event services Level.warn "forced off" (some vm.project_id) (some vm.id)
    add_project_notification services vm.project_id Level.warn "forced off" (some vm.id)

  unfoldable pub force_shutdown : VmRecord → ℕ → Scan Request World (Unit {0})
  force_shutdown vm at = do
    snapshot ← collect_process_snapshot vm
    failure ← try_stop vm false
    live ← observe ((ops_for services vm.kind).get_state vm.libvirt_name)
    if not (failure == "") || is_live live
        then retry_later vm at (if failure == "" then "still running" else failure)
        else forced_off vm live

  unfoldable pub cleanup_with : VmRecord → ℕ → Option CleanupAction → Scan Request World (Unit {0})
  cleanup_with vm at none = request_graceful_shutdown vm at
  cleanup_with vm at (some action) =
      if leb action.force_after at then force_shutdown vm at else pure tt

  unfoldable pub cleanup_running_stale_vm : VmRecord → ℕ → ℕ → Scan Request World (Unit {0})
  cleanup_running_stale_vm vm at activity_since = do
    recent ← query (count_project_calls_since vm.project_id activity_since)
    if leb cfg.inactive_call_threshold recent
        then pure tt
        else do action ← query (get_cleanup_action vm.id); cleanup_with vm at action

  unfoldable pub delete_stale : VmRecord → Scan Request World (Unit {0})
  delete_stale vm = do
    on_host ((ops_for services vm.kind).undefine vm.libvirt_name)
    if is_vm vm.kind && is_boxer vm.origin
        then on_host (services.delete_vm_storage vm.project_id vm.id)
        else pure tt
    write (delete_cleanup_action vm.id)
    write (delete_vm vm.id)
    add_event services Level.info "auto-deleted" (some vm.project_id) (some vm.id)

  unfoldable pub auto_delete : VmRecord → Scan Request World (Unit {0})
  auto_delete vm = recover (delete_stale vm) (λ _. pure tt)

  unfoldable pub note_stopped : VmRecord → Option CleanupAction → Scan Request World (Unit {0})
  note_stopped vm none = pure tt
  note_stopped vm (some action) = do
    write (delete_cleanup_action vm.id)
    add_event services Level.info "stopped after cleanup" (some vm.project_id) (some vm.id)

  -- What is done about a machine past its lease.
  unfoldable pub scan_expired : VmRecord → VmState → ℕ → Scan Request World (Unit {0})
  scan_expired vm effective at =
      if is_live effective
      then (do
        add_event services Level.warn "lease expired" (some vm.project_id) (some vm.id)
        cleanup_running_stale_vm vm at (at - minutes cfg.inactive_call_window_minutes))
      else if is_down effective
      then (do
        action ← query (get_cleanup_action vm.id)
        note_stopped vm action
        if ltb vm.lease_until (at - hours cfg.stale_delete_grace_hours)
            then auto_delete vm
            else pure tt)
      else pure tt

  unfoldable pub sync_state : VmRecord → VmState → Scan Request World (Unit {0})
  sync_state vm live =
      if not (state_eq live unknown) && not (state_eq live vm.state)
      then (do t ← now services; write (update_vm_state vm.id live t))
      else pure tt

  -- The body of the loop over the machines.
  unfoldable pub scan_vm : ℕ → VmRecord → Scan Request World (Unit {0})
  scan_vm at vm = do
    live ← observe ((ops_for services vm.kind).get_state vm.libvirt_name)
    sync_state vm live
    if ltb vm.lease_until at
        then scan_expired vm (effective_state live vm.state) at
        else write (delete_cleanup_action vm.id)

  unfoldable pub scan_vms : ℕ → List VmRecord → Scan Request World (Unit {0})
  scan_vms at [] = pure tt
  scan_vms at (vm ∷ vms) = do scan_vm at vm; scan_vms at vms

  -- The queue's and the call log's old rows, after the loop.
  unfoldable pub housekeeping : (ℕ → ℕ) → ℕ → Scan Request World (Unit {0})
  housekeeping datetime at = do
    t ← now services
    write (λ db. (expire_old_queue_entries datetime 2 t db).0)
    write (λ db. (prune_project_call_log (at - hours cfg.project_call_log_retention_hours) db).0)

  unfoldable pub scan : (ℕ → ℕ) → Scan Request World (Unit {0})
  scan datetime = do
    at ← now services
    vms ← query (list_vms none)
    scan_vms at vms
    housekeeping datetime at
