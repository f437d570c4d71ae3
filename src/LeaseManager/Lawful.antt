-- ===== src/LeaseManager/Lawful.antt =====
-- What the scan keeps: the constraints of the schema, and the grace between the two shutdowns.
use boxer.Base.{
  ℕ, ◌+◌, ◌≤◌, String, true, ◌≡◌, refl, ap, ◌∙◌, none, some, All, All-imp, has, has-update,
  has-delete, eq_iff, arith,
}
use boxer.Types.{VmRecord}
use boxer.Db.Schema.{Database}
use boxer.Db.Vms.{list_vms, by_id, update_vm_state, update_vm_ip, delete_vm}
use boxer.Db.Queue.{expire_old_queue_entries}
use boxer.Db.Activity.{prune_project_call_log, delete_cleanup_action}
use boxer.Db.Notices.{add_event, add_project_notification}
use boxer.Db.WellFormed.{upsert_cleanup_action-accepted}
use boxer.Services.{Services}
use boxer.LeaseManager.{LeaseConfig, scan, hours, minutes, action_at}
use boxer.LeaseManager.Stable.{IsStable, scan-Kept}

-- The machine `j` is there.
abbrev pub IsThere : {Request : Type 0} → String → Database Request → Type 0
IsThere j db = has (λ r. r.id) j db.vms ≡ true

-- Its lease ended less than the grace before `at`, if it ended.
abbrev pub Spared : LeaseConfig → String → ℕ → VmRecord → Type 0
Spared cfg j at vm = vm.id ≡ j → at ≤ vm.lease_until + hours cfg.stale_delete_grace_hours

module _ {Request : Type 0} (cfg : LeaseConfig) where
  -- Every cleanup action leaves the machine the configured time between the request and the force.
  abbrev pub GivesGrace : Database Request → Type 0
  GivesGrace db =
      All
        (λ a.
          a.force_after ≡ a.graceful_requested_at + minutes cfg.stale_force_shutdown_after_minutes)
        db.vm_cleanup_actions

  IsThere-stable :
      (j : String) (at : ℕ) (vm : VmRecord)
      → Spared cfg j at vm
      → IsStable {Request = Request} cfg at vm (IsThere j)
  unfolding update_vm_state update_vm_ip add_event add_project_notification delete_vm
      delete_cleanup_action
  IsThere-stable j at vm spared = record {
    state = λ vm_id s t db h.
        has-update (λ r. r.id) j (by_id vm_id) (λ r. record r { state = s; last_touched = t })
          db.vms (λ _. refl)
        ∙ h;
    ip = λ vm_id address t db h.
        has-update (λ r. r.id) j (by_id vm_id)
          (λ r. record r { ip_address = some address; last_touched = t }) db.vms (λ _. refl)
        ∙ h;
    deletion =
        λ late db h. ground (arith, has-delete (λ r. r.id) j vm.id db.vms, eq_iff vm.id j, spared);
    action = λ message db db' h e.
        let (_, same) = upsert_cleanup_action-accepted db (action_at cfg vm at message) e in
        rw (ap (λ (d : Database Request). d.vms) same) at h;
    no_action = λ vm_id db h. h;
    event = λ id level message project_id vm_id t db h. h;
    notification = λ id project_id level message vm_id t db h. h;
  }

  -- A machine that is in the database is there after a scan, whether the scan returns or raises,
  -- if its lease and the grace for deletion had not both ended at the time of the scan.
  pub scan-IsThere :
      {World : Type 0} (services : Services World) (datetime : ℕ → ℕ) (j : String)
      (db : Database Request) (world : World)
      → All (Spared cfg j (services.clock world)) (list_vms none db)
      → IsThere j db
      → IsThere j (scan cfg services datetime (db, world)).1.0
  unfolding expire_old_queue_entries prune_project_call_log
  scan-IsThere services datetime j db world spared h =
      scan-Kept cfg services datetime db world
        (All-imp (Spared cfg j (services.clock world)) _ (list_vms none db)
          (IsThere-stable j (services.clock world)) spared)
        (λ t db g. g) (λ t db g. g) h
