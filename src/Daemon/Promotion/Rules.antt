-- ===== src/Daemon/Promotion/Rules.antt =====
-- An invariant of the database under the creation of machines: what a predicate needs, and that the
-- steps of boxerd/daemon.py up to the insertion keep it.
use boxer.Base.{not, ltb, ℕ, zero, suc, [], ◌∷◌, String, ◌≡◌, Option, none, some, List}
use boxer.Ipc.{Result, ok}
use boxer.Types.{VmRecord}
use boxer.Db.Schema.{Database}
use boxer.Db.Projects.{upsert_project}
use boxer.Db.Vms.{insert_vm, update_vm_ip}
use boxer.Db.Queue.{enqueue}
use boxer.Capacity.{Float, HostStatus}
use boxer.Scheduler.{check_admission}
use boxer.Action.{Action}
use boxer.Action.Keeps.{
  Keeps, Keeps-bind, Keeps-pure, Keeps-if, Keeps-recover, Keeps-raise, keeps_rules,
}
use boxer.Services.{ExecResult}
use boxer.Services.Keeps.{OnDb, Ignores, service_rules, Keeps-on_host, Keeps-observe}
use boxer.Daemon.Hosting.{VmParams, Backends}
use boxer.Daemon.Creation.{NewMachine, or_delete_storage, provision}
use boxer.Daemon.Request.{
  wait_for_conditions, conditions_report, condition_status, poll_ssh, succeeds, pause, exec_ssh,
  poll_if_there, command_report,
}
use boxer.Daemon.Installer.{NewInstaller, provision_installer}

abbrev pub Db : Type 0
Db = Database VmParams

-- `P` is kept by every statement but the insertion of a machine, which needs `Room` for the disk of
-- the machine in its project; admission finds that room, and a change of the project's row keeps it.
pub record Admits {float : Float} {World : Type 0} (backends : Backends float World)
    (P : Db → Type 0) (Room : String → ℕ → Db → Type 0) : Type 0 where
  pub enough : (project_id : String) (disk_gb : ℕ) (db : Db) → Room project_id disk_gb db → P db
  pub admitted :
      (status : HostStatus float) (project_id : String) (cpu ram_mb disk_gb : ℕ) (db : Db)
      → P db
      → check_admission float backends.config.caps status project_id cpu ram_mb disk_gb db ≡ none
      → Room project_id disk_gb db
  pub upserted :
      (project_id : String) (disk_gb : ℕ) (id path : String) (t : ℕ) (db db' : Db)
      → Room project_id disk_gb db
      → upsert_project id path t db ≡ ok db'
      → Room project_id disk_gb db'
  pub inserted :
      (vm : VmRecord) (db db' : Db)
      → Room vm.project_id vm.disk_gb db
      → insert_vm vm db ≡ ok db'
      → P db'
  pub enqueued :
      (id project_id : String) (request : VmParams) (t : ℕ) (db : Db)
      → P db
      → P (enqueue id project_id request t db)
  pub addressed : (vm_id ip : String) (t : ℕ) (db : Db) → P db → P (update_vm_ip vm_id ip t db)
  pub events : Ignores P

-- Steps on the host alone keep any predicate of the database.
module _ {float : Float} {World : Type 0} (backends : Backends float World) {P : Db → Type 0} where
  or_delete_storage-Keeps :
      (project_id vm_id : String) (start : Action (Db × World) (Unit {0}))
      → Keeps (OnDb P) start
      → Keeps (OnDb P) (or_delete_storage backends project_id vm_id start)
  unfolding or_delete_storage
  or_delete_storage-Keeps project_id vm_id start k =
      Keeps-recover _ _ k λ e. Keeps-bind _ _ (Keeps-on_host _) λ _. Keeps-raise e

  pub provision-Keeps :
      (new : NewMachine) (vm_id : String) → Keeps (OnDb P) (provision backends new vm_id)
  unfolding provision
  provision-Keeps new vm_id = search (keeps_rules, service_rules, or_delete_storage-Keeps) depth 30

  pub provision_installer-Keeps :
      (job : NewInstaller) (vm_id : String)
      → Keeps (OnDb P) (provision_installer backends job vm_id)
  unfolding provision_installer
  provision_installer-Keeps job vm_id =
      search (keeps_rules, service_rules, or_delete_storage-Keeps) depth 30

  pub pause-Keeps : (seconds : ℕ) → Keeps (OnDb P) (pause backends seconds)
  unfolding pause
  pause-Keeps seconds = Keeps-on_host _

  exec_ssh-Keeps :
      (exec : Option (String → String → World → Result ExecResult × World)) (ip command : String)
      → Keeps (OnDb P) (exec_ssh backends exec ip command)
  unfolding exec_ssh
  exec_ssh-Keeps none ip command = Keeps-raise _
  exec_ssh-Keeps (some exec) ip command = Keeps-on_host _

  succeeds-Keeps : (ip command : String) → Keeps (OnDb P) (succeeds backends ip command)
  unfolding succeeds
  succeeds-Keeps ip command = search (keeps_rules, exec_ssh-Keeps) depth 10

  poll_ssh-Keeps :
      (fuel deadline : ℕ) (ip command : String)
      → Keeps (OnDb P) (poll_ssh backends fuel deadline ip command)
  unfolding poll_ssh
  poll_ssh-Keeps zero deadline ip command = Keeps-pure _
  poll_ssh-Keeps (suc fuel) deadline ip command =
      Keeps-bind _ _ (Keeps-observe backends.timer.loop_time) λ time.
        Keeps-if (not (ltb time deadline)) _ _
          (λ _. Keeps-bind _ _ (succeeds-Keeps ip command) λ ready.
            Keeps-if ready _ _
              (λ _. Keeps-bind _ _ (pause-Keeps 5) λ _. poll_ssh-Keeps fuel deadline ip command)
              (λ _. Keeps-pure "ready"))
          (λ _. Keeps-pure "timeout")

  poll_if_there-Keeps :
      (fuel deadline : ℕ) (ip : Option String) (command : String)
      → Keeps (OnDb P) (poll_if_there backends fuel deadline ip command)
  poll_if_there-Keeps fuel deadline none command = Keeps-pure _
  poll_if_there-Keeps fuel deadline (some ip) command = poll_ssh-Keeps fuel deadline ip command

  condition_status-Keeps :
      (fuel deadline : ℕ) (ip : Option String) (condition : String)
      → Keeps (OnDb P) (condition_status backends fuel deadline ip condition)
  unfolding condition_status
  condition_status-Keeps fuel deadline ip condition =
      search (keeps_rules, poll_if_there-Keeps) depth 10

  conditions_report-Keeps :
      (fuel deadline : ℕ) (ip : Option String) (conditions : List String)
      → Keeps (OnDb P) (conditions_report backends fuel deadline ip conditions)
  unfolding conditions_report
  conditions_report-Keeps fuel deadline ip [] = Keeps-pure []
  conditions_report-Keeps fuel deadline ip (condition ∷ conditions) =
      Keeps-bind _ _ (condition_status-Keeps fuel deadline ip condition) λ status.
        Keeps-bind _ _ (conditions_report-Keeps fuel deadline ip conditions) λ report. Keeps-pure _

  command_report-Keeps :
      (fuel deadline : ℕ) (ip command : Option String)
      → Keeps (OnDb P) (command_report backends fuel deadline ip command)
  command_report-Keeps fuel deadline ip none = Keeps-pure []
  command_report-Keeps fuel deadline ip (some command) =
      Keeps-bind _ _ (poll_if_there-Keeps fuel deadline ip command) λ status. Keeps-pure _

  pub wait_for_conditions-Keeps :
      (vm : VmRecord) (conditions : List String) (command : Option String) (timeout : ℕ)
      → Keeps (OnDb P) (wait_for_conditions backends vm conditions command timeout)
  unfolding wait_for_conditions
  wait_for_conditions-Keeps vm conditions command timeout =
      search (keeps_rules, service_rules, conditions_report-Keeps, command_report-Keeps) depth 20
