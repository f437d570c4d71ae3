-- ===== src/Types.antt =====
-- boxer/types.py: the records that the components exchange.
-- A `datetime` is its number of microseconds, a natural number; the sizes of a machine are natural
-- numbers. The states of a machine are the values that the source writes and compares.
use boxer.Base.{ℕ, String, Bool, true, false, Option, List}

pub data VmState : Type 0 where
  pending running stopped error deleting : VmState
  paused stopping unknown : VmState

abbrev pub state_eq : VmState → VmState → Bool
state_eq pending pending = true
state_eq running running = true
state_eq stopped stopped = true
state_eq error error = true
state_eq deleting deleting = true
state_eq paused paused = true
state_eq stopping stopping = true
state_eq unknown unknown = true
state_eq _ _ = false

-- kind: 'vm' (a libvirt domain) or 'android' (an emulator on the host)
pub data Kind : Type 0 where
  vm android : Kind

abbrev pub is_vm : Kind → Bool
is_vm vm = true
is_vm android = false

-- origin: 'boxer' (here `by_boxer`), 'imported' or 'adopted'
pub data Origin : Type 0 where
  by_boxer imported adopted : Origin

abbrev pub is_boxer : Origin → Bool
is_boxer by_boxer = true
is_boxer imported = false
is_boxer adopted = false

pub data ArtifactType : Type 0 where
  cloud_image iso android_emulator : ArtifactType

pub data InstallState : Type 0 where
  installing installed failed : InstallState

pub record VmRecord : Type 0 where
  pub id : String
  pub libvirt_name : String
  pub project_id : String
  pub display_name : String
  pub state : VmState
  pub owner_user : String
  pub template : String
  pub cpu : ℕ
  pub ram_mb : ℕ
  pub disk_gb : ℕ
  pub headless : Bool
  pub created_at : ℕ
  pub last_touched : ℕ
  pub lease_until : ℕ
  pub ip_address : Option String
  pub tags : List (String × String)
  pub origin : Origin
  pub artifact_type : ArtifactType
  pub install_state : Option InstallState
  pub kind : Kind

pub data QueueStatus : Type 0 where
  pending processing done expired : QueueStatus

abbrev pub is_pending : QueueStatus → Bool
is_pending QueueStatus.pending = true
is_pending processing = false
is_pending done = false
is_pending expired = false

-- `Request` stands for the JSON object of a queued request.
pub record QueueEntry (Request : Type 0) : Type 0 where
  pub id : String
  pub project_id : String
  pub request : Request
  pub priority : ℕ
  pub status : QueueStatus
  pub created_at : ℕ

pub data Level : Type 0 where
  info warn error : Level

pub record Event : Type 0 where
  pub id : String
  pub project_id : Option String
  pub vm_id : Option String
  pub level : Level
  pub message : String
  pub created_at : ℕ

-- The only stage that the source writes is 'graceful_requested'.
pub record CleanupAction : Type 0 where
  pub vm_id : String
  pub project_id : String
  pub graceful_requested_at : ℕ
  pub force_after : ℕ
  pub last_error : String

pub record ProjectNotification : Type 0 where
  pub id : String
  pub project_id : String
  pub vm_id : Option String
  pub level : Level
  pub message : String
  pub delivered : Bool
  pub created_at : ℕ
  pub delivered_at : Option ℕ

pub record CallerIdentity : Type 0 where
  pub project_id : String
  pub user : String
  pub is_admin : Bool
