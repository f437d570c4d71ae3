-- ===== src/Daemon/Request.antt =====
-- vm.request of boxerd/daemon.py: the parameters, admission, and the conditions to wait for. The
-- state of the host and the advice in an answer are left out.
use boxer.Base.{
  ℕ, zero, suc, ◌+◌, pos, String, Bool, true, false, not, ◌&&◌, ◌||◌, Option, none, some, List, [],
  ◌∷◌, ◌++◌, min, is_some, ltb, eqb, ◌==◌, if◌then◌else◌,
}
use boxer.Ipc.{Result, ok, err, ipc_error, exception, invalid_params}
use boxer.Types.{VmRecord}
use boxer.Db.Queue.{enqueue}
use boxer.Capacity.{Float}
use boxer.Scheduler.{Reason, check_admission}
use boxer.Action.{pure, raise, lift, recover, ◌>>=◌, ◌>>◌}
use boxer.Services.{ExecResult, on_host, query, observe, write, now, new_id}
use boxer.LeaseManager.{truthy}
use boxer.Json.{get}
use boxer.Daemon.{Handler}
use boxer.Daemon.Params.{caller_project_path, parse_wait_conditions}
use boxer.Daemon.Bootstrap.{BootstrapParams, bootstrap_from_params}
use boxer.Daemon.Hosting.{VmParams, CatalogEntry, Backends, size_of, or_given}
use boxer.Daemon.Creation.{NewMachine, Created, create_vm}

pub data VmAnswer : Type 0 where
  queued : String → Reason → VmAnswer
  created : Created → List (String × String) → VmAnswer

-- wait_for or wait_command
abbrev pub waits : List String → Option String → Bool
waits [] command = is_some (truthy command)
waits (_ ∷ _) command = true

-- a or b
abbrev or_seconds : ℕ → ℕ → ℕ
or_seconds zero b = b
or_seconds (suc a) b = suc a

-- Asking for a condition implies waiting for the address.
abbrev pub address_seconds : List String → VmParams → ℕ
address_seconds conditions params =
    if waits conditions params.wait_command && eqb params.wait_for_ip_seconds 0
    then or_seconds (min params.wait_timeout_seconds 900) 120
    else params.wait_for_ip_seconds

-- raise IPCError(ERR_INVALID_PARAMS, ...) for a template that the catalog does not have
abbrev pub known : Option CatalogEntry → Result CatalogEntry
known none = err (ipc_error invalid_params)
known (some entry) = ok entry

abbrev cloud_init_done : String
cloud_init_done = "cloud-init status --wait >/dev/null 2>&1 || cloud-init status | grep -q done"

module _ {float : Float} {World : Type 0} (backends : Backends float World) where
  unfoldable pub exec_ssh :
      Option (String → String → World → Result ExecResult × World)
      → String
      → String
      → Handler VmParams World ExecResult
  exec_ssh none ip command = raise (exception "AttributeError")
  exec_ssh (some exec) ip command = on_host (exec ip command)

  -- One try; an exception is a failure.
  unfoldable pub succeeds : String → String → Handler VmParams World Bool
  unfolding exec_ssh
  succeeds ip command =
      recover
        (do answer ← exec_ssh backends.services.exec_ssh ip command; pure (eqb answer.exit_code 0))
        (λ _. pure false)

  unfoldable pub pause : ℕ → Handler VmParams World (Unit {0})
  pause seconds = on_host (λ world. (ok tt, backends.timer.sleep seconds world))

  -- The loop of `_poll_ssh`, on fuel.
  unfoldable pub poll_ssh : ℕ → ℕ → String → String → Handler VmParams World String
  unfolding succeeds pause
  poll_ssh zero deadline ip command = pure "timeout"
  poll_ssh (suc fuel) deadline ip command = do
    time ← observe backends.timer.loop_time
    if not (ltb time deadline) then pure "timeout" else do
      ready ← succeeds ip command
      if ready then pure "ready" else do pause 5; poll_ssh fuel deadline ip command

  abbrev pub poll_if_there : ℕ → ℕ → Option String → String → Handler VmParams World String
  poll_if_there fuel deadline none command = pure "skipped"
  poll_if_there fuel deadline (some ip) command = poll_ssh fuel deadline ip command

  unfoldable pub condition_status : ℕ → ℕ → Option String → String → Handler VmParams World String
  unfolding poll_ssh
  condition_status fuel deadline ip condition =
      if condition == "guest_agent" || condition == "ip"
      then pure (if is_some ip then "ready" else "timeout")
      else if condition == "ssh"
      then poll_if_there fuel deadline ip "true"
      else if condition == "cloud_init" || condition == "package_install"
      then poll_if_there fuel deadline ip cloud_init_done
      else pure "error"

  unfoldable pub conditions_report :
      ℕ → ℕ → Option String → List String → Handler VmParams World (List (String × String))
  unfolding condition_status
  conditions_report fuel deadline ip [] = pure []
  conditions_report fuel deadline ip (condition ∷ conditions) = do
    status ← condition_status fuel deadline ip condition
    report ← conditions_report fuel deadline ip conditions
    pure ((condition, status) ∷ report)

  abbrev pub command_report :
      ℕ → ℕ → Option String → Option String → Handler VmParams World (List (String × String))
  command_report fuel deadline ip none = pure []
  command_report fuel deadline ip (some command) = do
    status ← poll_if_there fuel deadline ip command
    pure (("command", status) ∷ [])

  -- A turn of a loop takes five seconds, so that the seconds are more than the turns.
  unfoldable pub wait_for_conditions :
      VmRecord → List String → Option String → ℕ → Handler VmParams World (List (String × String))
  unfolding conditions_report poll_ssh
  wait_for_conditions vm conditions command timeout_seconds = do
    start ← observe backends.timer.loop_time
    report ←
        conditions_report timeout_seconds (start + timeout_seconds) (truthy vm.ip_address)
          conditions
    last ←
        command_report timeout_seconds (start + timeout_seconds) (truthy vm.ip_address)
          (truthy command)
    pure (report ++ last)

  -- `check_admission`, on the state of the host and the database.
  unfoldable pub admission : String → ℕ → ℕ → ℕ → Handler VmParams World (Option Reason)
  admission project_id cpu ram_mb disk_gb = do
    status ← observe backends.status
    query (check_admission float backends.config.caps status project_id cpu ram_mb disk_gb)

  unfoldable pub enqueue_request : String → VmParams → Handler VmParams World String
  enqueue_request project_id params = do
    id ← new_id backends.services
    t ← now backends.services
    write (enqueue id project_id params t)
    pure id

  abbrev pub new_machine :
      VmParams → CatalogEntry → String → List String → BootstrapParams → NewMachine
  new_machine params entry template conditions bootstrap = record {
    caller = params.caller;
    project_path =
        caller_project_path backends.platform.resolve (get "caller_project_path" params.fields)
          params.caller.project_id;
    template = template;
    purpose = or_given params.purpose "vm";
    headless = or_given params.headless true;
    ttl_minutes = or_given params.ttl_minutes (pos backends.config.default_ttl_minutes);
    cpu = size_of params.cpu entry.default_cpu 2;
    ram_mb = size_of params.ram_mb entry.default_ram_mb 2048;
    disk_gb = size_of params.disk_gb entry.default_disk_gb 20;
    tags = params.tags;
    bootstrap = bootstrap;
    ssh_access = params.ssh_access || params.return_ssh_private_key;
    include_private_key = params.return_ssh_private_key;
    wait_for_ip_seconds = address_seconds conditions params;
  }

  -- After admission.
  unfoldable pub serve_request :
      VmParams → NewMachine → List String → Option Reason → Handler VmParams World VmAnswer
  unfolding create_vm enqueue_request wait_for_conditions
  serve_request params new conditions (some reason) = do
    id ← enqueue_request new.caller.project_id params
    pure (queued id reason)
  serve_request params new conditions none = do
    result ← create_vm backends new
    if not (waits conditions params.wait_command) then pure (created result []) else do
      report ←
          wait_for_conditions result.vm conditions params.wait_command
            (or_seconds (min params.wait_timeout_seconds 900) 300)
      pure (created result report)

  unfoldable pub h_vm_request : VmParams → Handler VmParams World VmAnswer
  unfolding admission serve_request bootstrap_from_params parse_wait_conditions caller_project_path
  h_vm_request params = do
    bootstrap ← lift (bootstrap_from_params backends.platform.boxerctl_injection params.fields)
    conditions ← lift (parse_wait_conditions (get "wait_for" params.fields))
    entry ← lift (known (backends.host.catalog (or_given params.template "ubuntu-24.04")))
    reason ←
        (let new =
            new_machine params entry (or_given params.template "ubuntu-24.04") conditions
              bootstrap in
          admission new.caller.project_id new.cpu new.ram_mb new.disk_gb)
    serve_request params
        (new_machine params entry (or_given params.template "ubuntu-24.04") conditions bootstrap)
        conditions reason
