-- ===== src/Daemon.antt =====
-- The request handlers of `BoxerDaemon` (boxerd/daemon.py). The parameters of a request are taken as
-- read from its JSON object; a handler's state is the database beside the world of the backends.
pub mod Lifecycle
pub mod Tracking
pub mod Activity
pub mod Isolation
pub mod Outcome
pub mod Deletion
pub mod Ghosts
pub mod Params
pub mod Bootstrap
pub mod Hosting
pub mod Creation
pub mod Request
pub mod Installer
pub mod Android
pub mod Promotion
use boxer.Base.{ℕ, ◌+◌, ◌-◌, ◌*◌, String, Option, none, some, ℤ, pos, negsuc}
use boxer.Ipc.{Result, ok, err, ipc_error, exception, invalid_params}
use boxer.Types.{VmRecord, CallerIdentity}
use boxer.Db.Schema.{Database}
use boxer.Db.Vms.{get_vm}
use boxer.Policy.{check}
use boxer.Action.{Action, pure, lift, ◌>>=◌, ◌>>◌}
use boxer.Services.{query}
use boxer.LeaseManager.{truthy, minutes}

-- `if not x: raise IPCError(ERR_INVALID_PARAMS, ...)`
abbrev required_with : Option String → Result String
required_with none = err (ipc_error invalid_params)
required_with (some x) = ok x

abbrev pub required : Option String → Result String
required x = required_with (truthy x)

-- An attribute of `None`.
abbrev pub present : Option VmRecord → Result VmRecord
present none = err (exception "AttributeError")
present (some vm) = ok vm

-- t + timedelta(minutes=m), where m may have a sign; the time of a machine is after the epoch.
abbrev pub later : ℤ → ℕ → ℕ
later (pos m) t = t + minutes m
later (negsuc m) t = t - minutes (m + 1)

abbrev pub Handler : Type 0 → Type 0 → Type 0 → Type 0
Handler Request World A = Action (Database Request × World) A

module _ {Request World : Type 0} where
  -- The machine behind `vm_id`, after the policy's check of the action.
  unfoldable pub target : String → CallerIdentity → String → Handler Request World VmRecord
  target action caller vm_id = do
    vm ← query (get_vm vm_id)
    lift (check action caller vm)
    lift (present vm)
