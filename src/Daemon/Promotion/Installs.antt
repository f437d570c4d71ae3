-- ===== src/Daemon/Promotion/Installs.antt =====
-- The installers of boxerd/daemon.py keep an invariant that `Admits` them.
use boxer.Base.{
  ℕ, zero, suc, String, not, Option, none, some, Option-cases, Bool-cases, inl, inr, leb, ltb,
}
use boxer.Types.{VmRecord, InstallState}
use boxer.Db.Vms.{count_installing_vms}
use boxer.Capacity.{Float}
use boxer.Scheduler.{check_admission}
use boxer.Action.{Action, pure, ◌>>=◌}
use boxer.Action.Keeps.{
  Keeps, Keeps-bind, Keeps-pure, Keeps-lift, Keeps-if, Keeps-modify, keeps_rules,
}
use boxer.Action.Moves.{Moves, Moves-before, Moves-after}
use boxer.Services.{query, observe}
use boxer.Services.Keeps.{OnDb, service_rules, Keeps-observe, Keeps-query, Keeps-now, Keeps-new_id}
use boxer.Daemon.Tracking.{make_vm_id}
use boxer.LeaseManager.{truthy}
use boxer.Daemon.Hosting.{VmParams, Backends}
use boxer.Daemon.Creation.{NewMachine}
use boxer.Daemon.Request.{admission}
use boxer.Daemon.Installer.{
  NewInstaller, Delay, create_installer_vm, add_installer, installer_admission, installer_record,
}
use boxer.Daemon.Installer.Watcher.{tick, wait_loop, wait_for_install, final}
use boxer.Daemon.Installer.Request.{
  local_source, catalog_source, source_of, installer_of, answer_started, serve_installer,
  h_vm_request_installer,
}
use boxer.Daemon.Promotion.Rules.{Db, Admits, provision_installer-Keeps, pause-Keeps}
use boxer.Daemon.Promotion.Creates.{insert-Moves, event-Keeps, upsert-Keeps, weaken, enqueue-Keeps}

module _ {float : Float} {World : Type 0} (backends : Backends float World) {P : Db → Type 0}
    {Room : String → ℕ → Db → Type 0} (admits : Admits backends P Room)
    (others : Db × World → Db × World)
    (others_keep : (s : Db × World) → P s.0 → P (others s).0) where
  tick-Keeps : (seconds : ℕ) → Keeps (OnDb P) (tick backends others seconds)
  unfolding tick
  tick-Keeps seconds =
      Keeps-bind _ _ (pause-Keeps backends seconds)
        λ _. Keeps-modify others λ s h. record { db = others_keep s h.db }

  wait_step-Keeps :
      (found : Option InstallState) (again : Action (Db × World) (Option InstallState))
      → Keeps (OnDb P) again
      → Keeps (OnDb P) (elim found [ some state ↦ pure (some state) | none ↦ again ])
  wait_step-Keeps none again k = k
  wait_step-Keeps (some state) again k = Keeps-pure (some state)

  wait_loop-Keeps :
      (fuel deadline : ℕ) (vm_id : String)
      → Keeps (OnDb P) (wait_loop backends others fuel deadline vm_id)
  unfolding wait_loop
  wait_loop-Keeps zero deadline vm_id = Keeps-pure none
  wait_loop-Keeps (suc fuel) deadline vm_id =
      Keeps-bind _ _ (Keeps-observe backends.timer.loop_time) λ time.
        Keeps-if (not (ltb time deadline)) _ _
          (λ _. Keeps-bind _ _ (Keeps-query _) λ vm.
            wait_step-Keeps (final vm) _
              (Keeps-bind _ _ (tick-Keeps 10) λ _. wait_loop-Keeps fuel deadline vm_id))
          (λ _. Keeps-pure none)

  answer-Keeps :
      (params : VmParams) (job : NewInstaller) (vm : VmRecord)
      → Keeps (OnDb P) (answer_started backends others params job vm)
  unfolding answer_started wait_for_install
  answer-Keeps params job vm = search (keeps_rules, service_rules, wait_loop-Keeps) depth 20

  add_installer-Moves :
      (vm : VmRecord)
      → Moves (OnDb (Room vm.project_id vm.disk_gb)) (OnDb P) (add_installer backends vm)
  unfolding add_installer
  add_installer-Moves vm =
      Moves-after _ _ (insert-Moves backends admits vm)
        λ _. Keeps-bind _ _ (event-Keeps backends admits _ _ _ _) λ _. Keeps-pure vm

  create_installer_vm-Moves :
      (job : NewInstaller)
      → Moves
          (OnDb (Room job.new.caller.project_id job.new.disk_gb))
          (OnDb P)
          (create_installer_vm backends job)
  unfolding create_installer_vm
  create_installer_vm-Moves job =
      let new = job.new in
      let imp = weaken backends admits new.caller.project_id new.disk_gb in
      Moves-before _ _ imp (Keeps-new_id backends.services) λ uuid.
        Moves-before _ _ imp (Keeps-now backends.services) λ t.
          Moves-before _ _ imp (Keeps-now backends.services) λ seen.
            Moves-before _ _ imp
              (upsert-Keeps backends admits new.caller.project_id new.disk_gb _ _ _)
              λ _.
                Moves-before _ _ imp (provision_installer-Keeps backends job (make_vm_id uuid)) λ _.
                  add_installer-Moves
                    (installer_record backends.platform.is_alnum job (make_vm_id uuid) t)

  installer_admission-Keeps :
      {A : Type 0} (new : NewMachine) (serve : Option Delay → Action (Db × World) A)
      → ((delay : Delay) → Keeps (OnDb P) (serve (some delay)))
      → Moves (OnDb (Room new.caller.project_id new.disk_gb)) (OnDb P) (serve none)
      → Keeps (OnDb P) (installer_admission backends new >>= serve)
  unfolding installer_admission admission query observe pure ◌>>=◌
  installer_admission-Keeps new serve denied allowed = record {
    at = λ s h.
        elim (Bool-cases (leb backends.config.max_concurrent_installs (count_installing_vms s.0))) [
          | inl full ↦ rw full ((denied _).at s h)
          | inr free ↦
              rw free
                (elim (Option-cases (
                  check_admission float backends.config.caps (backends.status s.1)
                    new.caller.project_id new.cpu new.ram_mb new.disk_gb s.0)) [
                      | inl e ↦ rw e (
                          allowed.at s (record {
                            db =
                                admits.admitted (backends.status s.1) new.caller.project_id new.cpu
                                  new.ram_mb new.disk_gb s.0 h.db e;
                          }))
                      | inr (reason, e) ↦ rw e ((denied _).at s h)
                    ])
        ];
  }

  local-Keeps :
      (params : VmParams) (path : String) → Keeps (OnDb P) (local_source backends params path)
  unfolding local_source
  local-Keeps params path = search (keeps_rules, service_rules) depth 20

  catalog-Keeps :
      (params : VmParams) (template : String)
      → Keeps (OnDb P) (catalog_source backends params template)
  unfolding catalog_source
  catalog-Keeps params template = search (keeps_rules, service_rules) depth 20

  source_of-Keeps : (params : VmParams) → Keeps (OnDb P) (source_of backends params)
  unfolding source_of
  source_of-Keeps params = elim (Option-cases (truthy params.iso_path)) [
    | inl e ↦ rw (e, source_of) (catalog-Keeps params _)
    | inr (path, e) ↦ rw (e, source_of) (local-Keeps params path)
  ]

  pub h_vm_request_installer-Keeps :
      (params : VmParams) → Keeps (OnDb P) (h_vm_request_installer backends others params)
  unfolding h_vm_request_installer serve_installer
  h_vm_request_installer-Keeps params = Keeps-bind _ _ (Keeps-lift _) λ _.
      Keeps-bind _ _ (Keeps-lift _) λ bootstrap. Keeps-bind _ _ (source_of-Keeps params) λ source.
        let job = installer_of backends params bootstrap source in
        installer_admission-Keeps job.new _
          (λ delay. Keeps-bind _ _ (enqueue-Keeps backends admits _ _) λ id. Keeps-pure _)
          (Moves-after _ _ (create_installer_vm-Moves job) λ vm. answer-Keeps params job vm)
