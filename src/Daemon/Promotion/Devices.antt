-- ===== src/Daemon/Promotion/Devices.antt =====
-- The Android devices of boxerd/daemon.py keep an invariant that `Admits` them, and so does every round
-- of the queue's runner.
use boxer.Base.{
  ℕ, String, not, Option, none, some, Option-cases, Bool-cases, inl, inr, leb, ltb, min, length,
  select,
}
use boxer.Types.{VmRecord}
use boxer.Db.Vms.{list_vms}
use boxer.Capacity.{Float}
use boxer.Scheduler.{check_admission}
use boxer.Action.{Action, pure, ◌>>=◌}
use boxer.Action.Keeps.{Keeps, Keeps-bind, Keeps-pure, Keeps-lift, Keeps-if}
use boxer.Action.Moves.{Moves, Moves-before, Moves-after}
use boxer.Services.{query, observe}
use boxer.Services.Keeps.{OnDb, Keeps-on_host, Keeps-now, Keeps-new_id}
use boxer.Daemon.Tracking.{make_vm_id}
use boxer.Daemon.Hosting.{VmParams, Backends}
use boxer.Daemon.Request.{admission}
use boxer.Daemon.Android.{
  AndroidHost, Device, AndroidDelay, AndroidEntry, runs, android_admission, add_device,
  create_device, serve_android, h_android_request, device_of, device_record,
}
use boxer.Daemon.Promotion.Rules.{Db, Admits}
use boxer.Daemon.Promotion.Creates.{insert-Moves, event-Keeps, upsert-Keeps, weaken, enqueue-Keeps}

module _ {float : Float} {World : Type 0} (backends : Backends float World)
    (android : AndroidHost World) {P : Db → Type 0} {Room : String → ℕ → Db → Type 0}
    (admits : Admits backends P Room) where
  android_admission-Keeps :
      {A : Type 0} (project_id : String) (device : Device)
      (serve : Option AndroidDelay → Action (Db × World) A)
      → ((delay : AndroidDelay) → Keeps (OnDb P) (serve (some delay)))
      → Moves (OnDb (Room project_id device.data_gb)) (OnDb P) (serve none)
      → Keeps (OnDb P) (android_admission backends android project_id device >>= serve)
  unfolding android_admission admission query observe pure ◌>>=◌
  android_admission-Keeps project_id device serve denied allowed = record {
    at = λ s h.
        elim (Option-cases (
          check_admission float backends.config.caps (backends.status s.1) project_id device.cores
            device.ram_mb device.data_gb s.0)) [
              | inr (reason, e) ↦ rw e ((denied _).at s h)
              | inl e ↦
                  rw e
                    (elim (Bool-cases (
                      leb backends.config.max_concurrent_emulators
                        (length (select (runs backends android s.1) (list_vms none s.0))))) [
                          | inl full ↦ rw full ((denied _).at s h)
                          | inr free ↦ rw free (
                              allowed.at s (record {
                                db =
                                    admits.admitted (backends.status s.1) project_id device.cores
                                      device.ram_mb device.data_gb s.0 h.db e;
                              }))
                        ])
            ];
  }

  add_device-Moves :
      (vm : VmRecord) (serial : String)
      → Moves
          (OnDb (Room vm.project_id vm.disk_gb))
          (OnDb P)
          (add_device backends android vm serial)
  unfolding add_device
  add_device-Moves vm serial =
      Moves-after _ _ (insert-Moves backends admits vm)
        λ _. Keeps-bind _ _ (event-Keeps backends admits _ _ _ _) λ _. Keeps-pure (vm, serial)

  create_device-Moves :
      (params : VmParams) (device : Device) (entry : AndroidEntry)
      → Moves
          (OnDb (Room params.caller.project_id device.data_gb))
          (OnDb P)
          (create_device backends android params device entry)
  unfolding create_device
  create_device-Moves params device entry =
      let imp = weaken backends admits params.caller.project_id device.data_gb in
      Moves-before _ _ imp (Keeps-new_id backends.services) λ uuid.
        Moves-before _ _ imp (Keeps-lift _) λ _.
          Moves-before _ _ imp (Keeps-now backends.services) λ t.
            Moves-before _ _ imp (Keeps-now backends.services) λ seen.
              Moves-before _ _ imp
                (upsert-Keeps backends admits params.caller.project_id device.data_gb _ _ _)
                λ _. Moves-before _ _ imp (Keeps-on_host _) λ _.
                  Moves-before _ _ imp (Keeps-on_host _) λ _.
                    Moves-before _ _ imp (Keeps-on_host _) λ launched.
                      add_device-Moves
                        (device_record params device entry launched (make_vm_id uuid) t _)
                        launched.serial

  pub h_android_request-Keeps :
      (params : VmParams) → Keeps (OnDb P) (h_android_request backends android params)
  unfolding h_android_request serve_android
  h_android_request-Keeps params = Keeps-bind _ _ (Keeps-lift _) λ entry.
      Keeps-bind _ _ (Keeps-on_host _) λ _.
        let device = device_of backends android params entry in
        android_admission-Keeps params.caller.project_id device _
          (λ delay. Keeps-bind _ _ (enqueue-Keeps backends admits _ _) λ id. Keeps-pure _)
          (Moves-after _ _ (create_device-Moves params device entry) λ made.
            Keeps-if (not (ltb 0 (min params.wait_boot_seconds 900))) _ _
              (λ _. Keeps-bind _ _ (Keeps-on_host _) λ is_up. Keeps-pure _) (λ _. Keeps-pure _))
