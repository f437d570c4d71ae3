-- ===== src/Daemon/Promotion/Creates.antt =====
-- Every request of boxerd/daemon.py keeps an invariant that `Admits` it.
use boxer.Base.{ℕ, String, not, Option, none, some, Option-cases, inl, inr}
use boxer.Types.{VmRecord, Level}
use boxer.Db.Projects.{upsert_project}
use boxer.Db.Vms.{insert_vm, update_vm_ip}
use boxer.Capacity.{Float}
use boxer.Scheduler.{Reason, check_admission}
use boxer.Action.{Action, ◌>>=◌}
use boxer.Action.Keeps.{Keeps, Keeps-bind, Keeps-pure, Keeps-lift, Keeps-if, keeps_rules}
use boxer.Action.Moves.{Moves, Moves-before, Moves-after}
use boxer.Services.{query, observe, write, write_checked, add_event}
use boxer.Services.Keeps.{
  OnDb, service_rules, Keeps-now, Keeps-new_id, Keeps-write, Keeps-write_checked, Keeps-add_event,
  Moves-write_checked,
}
use boxer.Daemon.Hosting.{VmParams, SshKeyMaterial, or_given, Backends}
use boxer.Daemon.Tracking.{make_vm_id}
use boxer.Daemon.Creation.{
  noted_address, new_record, NewMachine, first_address, register, create_vm,
}
use boxer.Daemon.Request.{
  new_machine, waits, admission, enqueue_request, serve_request, h_vm_request,
}
use boxer.Daemon.Promotion.Rules.{Db, Admits, provision-Keeps, wait_for_conditions-Keeps}

module _ {float : Float} {World : Type 0} (backends : Backends float World) {P : Db → Type 0}
    {Room : String → ℕ → Db → Type 0} (admits : Admits backends P Room) where
  pub insert-Moves :
      (vm : VmRecord)
      → Moves
          (OnDb (Room vm.project_id vm.disk_gb))
          (OnDb {World = World} P)
          (write_checked (insert_vm vm))
  insert-Moves vm =
      Moves-write_checked (insert_vm vm) (λ db. admits.enough vm.project_id vm.disk_gb db)
        (λ db db'. admits.inserted vm db db')

  pub admission-Keeps :
      {A : Type 0} (project_id : String) (cpu ram_mb disk_gb : ℕ)
      (serve : Option Reason → Action (Db × World) A)
      → ((reason : Reason) → Keeps (OnDb P) (serve (some reason)))
      → Moves (OnDb (Room project_id disk_gb)) (OnDb P) (serve none)
      → Keeps (OnDb P) (admission backends project_id cpu ram_mb disk_gb >>= serve)
  unfolding admission observe query ◌>>=◌
  admission-Keeps project_id cpu ram_mb disk_gb serve denied allowed = record {
    at = λ s h.
        elim (Option-cases (
          check_admission float backends.config.caps (backends.status s.1) project_id cpu ram_mb
            disk_gb s.0)) [
              | inl e ↦ rw e (
                  allowed.at s (record {
                    db =
                        admits.admitted (backends.status s.1) project_id cpu ram_mb disk_gb s.0 h.db
                          e;
                  }))
              | inr (reason, e) ↦ rw e ((denied reason).at s h)
            ];
  }

  pub event-Keeps :
      (level : Level) (message : String) (project_id vm_id : Option String)
      → Keeps (OnDb P) (add_event backends.services level message project_id vm_id)
  event-Keeps level message project_id vm_id =
      Keeps-add_event backends.services level message project_id vm_id admits.events

  address-Keeps :
      (vm_id ip : String) (t : ℕ) → Keeps (OnDb {World = World} P) (write (update_vm_ip vm_id ip t))
  address-Keeps vm_id ip t = Keeps-write _ λ db h. admits.addressed vm_id ip t db h

  noted_address-Keeps :
      (vm_id : String) (found : Option String) → Keeps (OnDb P) (noted_address backends vm_id found)
  noted_address-Keeps vm_id none = Keeps-pure none
  noted_address-Keeps vm_id (some ip) = search (keeps_rules, service_rules, address-Keeps) depth 10

  first_address-Keeps :
      (seconds : ℕ) (vm : VmRecord) → Keeps (OnDb P) (first_address backends seconds vm)
  unfolding first_address
  first_address-Keeps seconds vm = search (keeps_rules, service_rules, noted_address-Keeps) depth 10

  pub upsert-Keeps :
      (project_id : String) (disk_gb : ℕ) (id path : String) (t : ℕ)
      → Keeps
          (OnDb {World = World} (Room project_id disk_gb))
          (write_checked (upsert_project id path t))
  upsert-Keeps project_id disk_gb id path t =
      Keeps-write_checked _ λ db db' h e. admits.upserted project_id disk_gb id path t db db' h e

  pub weaken :
      (project_id : String) (disk_gb : ℕ) (s : Db × World)
      → OnDb (Room project_id disk_gb) s
      → OnDb P s
  weaken project_id disk_gb s h = record { db = admits.enough project_id disk_gb s.0 h.db }

  register-Moves :
      (new : NewMachine) (vm : VmRecord) (key : Option SshKeyMaterial)
      → Moves (OnDb (Room vm.project_id vm.disk_gb)) (OnDb P) (register backends new vm key)
  unfolding register
  register-Moves new vm key = Moves-after _ _ (insert-Moves vm) λ _.
      Keeps-bind _ _ (first_address-Keeps new.wait_for_ip_seconds vm)
        λ ip. Keeps-bind _ _ (event-Keeps _ _ _ _) λ _. Keeps-pure _

  create_vm-Moves :
      (new : NewMachine)
      → Moves (OnDb (Room new.caller.project_id new.disk_gb)) (OnDb P) (create_vm backends new)
  unfolding create_vm
  create_vm-Moves new =
      let imp = weaken new.caller.project_id new.disk_gb in
      Moves-before _ _ imp (Keeps-new_id backends.services) λ uuid.
        Moves-before _ _ imp (Keeps-now backends.services) λ t.
          Moves-before _ _ imp (Keeps-now backends.services) λ seen.
            Moves-before _ _ imp (upsert-Keeps new.caller.project_id new.disk_gb _ _ _) λ _.
              Moves-before _ _ imp (provision-Keeps backends new (make_vm_id uuid)) λ key.
                register-Moves new (new_record backends.platform.is_alnum new (make_vm_id uuid) t)
                  key

  pub enqueue-Keeps :
      (project_id : String) (params : VmParams)
      → Keeps (OnDb P) (enqueue_request backends project_id params)
  unfolding enqueue_request
  enqueue-Keeps project_id params = Keeps-bind _ _ (Keeps-new_id backends.services) λ id.
      Keeps-bind _ _ (Keeps-now backends.services) λ t.
        Keeps-bind _ _ (Keeps-write _ λ db h. admits.enqueued id project_id params t db h)
          λ _. Keeps-pure id

  pub h_vm_request-Keeps : (params : VmParams) → Keeps (OnDb P) (h_vm_request backends params)
  unfolding h_vm_request serve_request
  h_vm_request-Keeps params = Keeps-bind _ _ (Keeps-lift _) λ bootstrap.
      Keeps-bind _ _ (Keeps-lift _) λ conditions. Keeps-bind _ _ (Keeps-lift _) λ entry.
        let new =
          new_machine backends params entry (or_given params.template "ubuntu-24.04") conditions
            bootstrap in
        admission-Keeps new.caller.project_id new.cpu new.ram_mb new.disk_gb _
          (λ reason. Keeps-bind _ _ (enqueue-Keeps _ params) λ id. Keeps-pure _)
          (Moves-after _ _ (create_vm-Moves new) λ result.
            Keeps-if (not (waits conditions params.wait_command)) _ _
              (λ _.
                Keeps-bind _ _
                  (wait_for_conditions-Keeps backends result.vm conditions params.wait_command _)
                  λ report. Keeps-pure _)
              (λ _. Keeps-pure _))
