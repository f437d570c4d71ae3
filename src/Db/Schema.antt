-- ===== src/Db/Schema.antt =====
-- The schema of boxerd/db.py: a record for the rows of each table, and the tables.
-- A row of `queue`, `events`, `vm_cleanup_actions` or `project_notifications` has the fields of its
-- record of boxer/types.py.
use boxer.Base.{ℕ, String, List, [], Option}
use boxer.Types.{
  VmState, Origin, ArtifactType, InstallState, Kind, QueueEntry, Event, CleanupAction,
  ProjectNotification,
}

pub record ProjectRow : Type 0 where
  pub id : String
  pub path : String
  pub first_seen : ℕ
  pub last_seen : ℕ

pub record VmRow : Type 0 where
  pub id : String
  pub libvirt_name : String
  pub project_id : String
  pub display_name : String
  pub state : VmState
  pub owner_user : String
  pub template : String
  pub cpu : ℕ
  pub ram_mb : ℕ
  pub disk_gb : ℕ
  pub headless : ℕ
  pub ip_address : Option String
  pub created_at : ℕ
  pub last_touched : ℕ
  pub lease_until : ℕ
  pub origin : Origin
  pub artifact_type : ArtifactType
  pub install_state : Option InstallState
  pub kind : Kind

pub record TagRow : Type 0 where
  pub vm_id : String
  pub key : String
  pub value : String

pub record CallRow : Type 0 where
  pub id : String
  pub project_id : String
  pub method : String
  pub caller_user : String
  pub called_at : ℕ

-- `Request` stands for the JSON objects that wait in the queue.
pub record Database (Request : Type 0) : Type 0 where
  pub projects : List ProjectRow
  pub vms : List VmRow
  pub vm_tags : List TagRow
  pub queue : List (QueueEntry Request)
  pub events : List Event
  pub project_call_log : List CallRow
  pub vm_cleanup_actions : List CleanupAction
  pub project_notifications : List ProjectNotification

abbrev pub empty : (Request : Type 0) → Database Request
empty Request = record {
  projects = [];
  vms = [];
  vm_tags = [];
  queue = [];
  events = [];
  project_call_log = [];
  vm_cleanup_actions = [];
  project_notifications = [];
}
