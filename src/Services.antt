-- ===== src/Services.antt =====
-- What the daemon's components are given: the backends of machines, the storage, the guests, the
-- clock and the ids. Each is an operation on a world of its own; the database stands beside it.
pub mod Keeps
use boxer.Base.{ℕ, String, Bool, Option, none, some, List}
use boxer.Ipc.{Result, ok, err}
use boxer.Types.{VmState, VmRecord, Kind, Level}
use boxer.Db.Schema.{Database}
use boxer.Db.Notices
use boxer.Action.{Action, pure, lift, gets, ◌>>=◌, ◌>>◌}

-- The surface that `VMOperations` (boxerd/vm_ops.py) and `EmulatorOperations`
-- (boxerd/emulator_ops.py) share.
pub record Ops (World : Type 0) : Type 0 where
  pub get_state : String → World → VmState
  pub start : String → World → Result (Unit {0}) × World
  pub stop : String → Bool → World → Result (Unit {0}) × World
  pub undefine : String → World → Result (Unit {0}) × World

-- The answer of a command in a guest: its exit code, and the lines of its output.
pub record ExecResult : Type 0 where
  pub exit_code : ℕ
  pub lines : List String

pub record Services (World : Type 0) : Type 0 where
  pub clock : World → ℕ
  pub uuid4 : World → String × World
  pub vm_ops : Ops World
  pub emulator_ops : Option (Ops World)
  pub delete_vm_storage : String → String → World → Result (Unit {0}) × World
  -- the IP address of a domain, asked of its guest agent
  pub get_ip_via_guest_agent : String → ℕ → World → Result (Option String) × World
  -- `GuestAgent.exec_ssh`, if guest operations are configured
  pub exec_ssh : Option (String → String → World → Result ExecResult × World)

-- `_ops_for`: the emulator's operations for an Android device, if there is an emulator.
unfoldable pub ops_for : {World : Type 0} → Services World → Kind → Ops World
ops_for services Kind.vm = services.vm_ops
ops_for services Kind.android = elim services.emulator_ops [
  | none ↦ services.vm_ops
  | some ops ↦ ops
]

module _ {Request World : Type 0} where
  -- A call that only changes the world.
  unfoldable pub on_host :
      {A : Type 0} → (World → Result A × World) → Action (Database Request × World) A
  on_host call (db, world) = let (r, world') = call world in (r, (db, world'))

  -- A query.
  unfoldable pub query : {A : Type 0} → (Database Request → A) → Action (Database Request × World) A
  query f (db, world) = (ok (f db), (db, world))

  unfoldable pub observe : {A : Type 0} → (World → A) → Action (Database Request × World) A
  observe f (db, world) = (ok (f world), (db, world))

  -- A statement that no constraint refuses.
  unfoldable pub write :
      (Database Request → Database Request) → Action (Database Request × World) (Unit {0})
  write f (db, world) = (ok tt, (f db, world))

  abbrev pub written :
      Database Request
      → World
      → Result (Database Request)
      → Result (Unit {0}) × (Database Request × World)
  written db world (ok db') = (ok tt, (db', world))
  written db world (err e) = (err e, (db, world))

  -- A statement that a constraint may refuse.
  unfoldable pub write_checked :
      (Database Request → Result (Database Request)) → Action (Database Request × World) (Unit {0})
  write_checked f (db, world) = written db world (f db)

module _ {Request World : Type 0} (services : Services World) where
  unfoldable pub now : Action (Database Request × World) ℕ
  now = observe services.clock

  unfoldable pub new_id : Action (Database Request × World) String
  new_id = on_host λ world. let (id, world') = services.uuid4 world in (ok id, world')

  -- The messages are short tags: the values that the source puts into them are not kept.
  unfoldable pub add_event :
      Level → String → Option String → Option String → Action (Database Request × World) (Unit {0})
  add_event level message project_id vm_id = do
    id ← new_id
    at ← now
    write (Notices.add_event id level message project_id vm_id at)

  unfoldable pub add_project_notification :
      String → Level → String → Option String → Action (Database Request × World) (Unit {0})
  add_project_notification project_id level message vm_id = do
    id ← new_id
    at ← now
    write (Notices.add_project_notification id project_id level message vm_id at)
