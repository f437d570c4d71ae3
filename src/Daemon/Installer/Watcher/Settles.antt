-- ===== src/Daemon/Installer/Watcher/Settles.antt =====
-- A watch of boxerd/daemon.py ends, and leaves no machine in installation.
use boxer.Base.{
  ℕ, zero, suc, ◌+◌, ◌*◌, ◌≤◌, String, Bool, true, false, ◌≡◌, ◌≢◌, ◌⊎◌, refl, none, some, List, [],
  ◌∷◌, All, All-update, update_where, if◌then◌else◌, arith, Bool-cases, inl, inr, ltb, ltb_false→le,
  ◌==◌, eq_iff,
}
use boxer.Ipc.{ok}
use boxer.Types.{InstallState, running, installing, installed, failed, state_eq, stopped, Level}
use boxer.Db.Schema.{Database, VmRow}
use boxer.Db.Vms.{by_id, update_vm_install_state, update_vm_state}
use boxer.Db.Notices
use boxer.Capacity.{Float}
use boxer.Action.{pure, ◌>>=◌, ◌>>◌}
use boxer.Action.Keeps.{Keeps, Keeps-bind, Keeps-pure}
use boxer.Action.Returns.{Gives-bind, Gives-pure, Returns, Returns-recover}
use boxer.Action.Leaves.{Leaves-before, Leaves-after}
use boxer.Action.Moves.{Moves, Moves-recover, Moves-after}
use boxer.Services.{write, add_event}
use boxer.Services.Keeps.{OnDb, Ignores, Keeps-write, Keeps-now, Keeps-add_event}
use boxer.Daemon.Hosting.{VmParams, Backends}
use boxer.Daemon.Installer.Watcher.{
  Watched, booted, gave_up, timed_out, watch_loop, watch_install, boot_installed, give_up,
  note_install_state, tick,
}

-- The machine, if there is one, is not in installation.
abbrev pub Settled : String → Database VmParams → Type 0
Settled vm_id db = All (λ r. (r.id ≡ vm_id) → r.install_state ≢ some installing) db.vms

marked :
    (vm_id : String) (state : InstallState) (t : ℕ) (rows : List VmRow)
    → state ≢ installing
    → All
        (λ r. (r.id ≡ vm_id) → r.install_state ≢ some installing)
        (update_where
          (by_id vm_id)
          (λ r. record r { install_state = some state; last_touched = t })
          rows)
marked vm_id state t [] apart = tt
marked vm_id state t (r ∷ rows) apart = elim (Bool-cases (r.id == vm_id)) [
  | inl e ↦ rw e ((λ _ same. apart cc), marked vm_id state t rows apart)
  | inr e ↦
      rw e ((λ same. absurd (ground (arith, eq_iff r.id vm_id))), marked vm_id state t rows apart)
]

module _ {float : Float} {World : Type 0} (backends : Backends float World)
    (others : Database VmParams × World → Database VmParams × World) where
  abbrev time : World → ℕ
  time = backends.timer.loop_time

  -- A pause takes its time; the other tasks and the making of an id do not turn the clock back.
  pub record IsClock : Type 0 where
    pub sleeps : (n : ℕ) (world : World) → time world + n ≤ time (backends.timer.sleep n world)
    pub forward :
        (db : Database VmParams) (world : World) → time world ≤ time (others (db, world)).1
    pub ids : (world : World) → time world ≤ time (backends.services.uuid4 world).1

  -- The loop returns, and if the domain is not off by then, the deadline has passed.
  watch_loop-ends :
      (clock : IsClock) (fuel deadline : ℕ) (name : String) (db : Database VmParams) (world : World)
      → deadline ≤ time world + 15 * fuel
      → (off : Bool) × ((watch_loop backends others fuel deadline name (db, world)).0 ≡ ok off)
        × ((off ≡ false)
            → deadline ≤ time (watch_loop backends others fuel deadline name (db, world)).1.1)
  unfolding watch_loop tick boxer.Daemon.Request.pause boxer.Services.observe boxer.Services.on_host
      boxer.Action.modify ◌>>=◌
  watch_loop-ends clock zero deadline name db world h = (false, refl, λ _. omega (arith, h))
  watch_loop-ends clock (suc fuel) deadline name db world h =
      elim (Bool-cases (ltb (time world) deadline)) [
        | inr late ↦ rw late (false, refl, λ _. ltb_false→le _ _ late)
        | inl early ↦
            rw early
              (elim (Bool-cases
                (state_eq (backends.services.vm_ops.get_state name world) stopped)) [
                  | inl off ↦ rw off (true, refl, λ q. absurd cc)
                  | inr on ↦ rw on (
                      let slept = backends.timer.sleep 15 world in
                      let after = others (db, slept) in
                      watch_loop-ends clock fuel deadline name after.0 after.1
                        (omega (arith, h, clock.sleeps 15 world, clock.forward db slept)))
                ])
      ]

  module _ (vm_id : String) where
    marks :
        (state : InstallState)
        → state ≢ installing
        → (s : Database VmParams × World)
        → Settled vm_id (note_install_state backends others vm_id state s).1.0
    unfolding note_install_state update_vm_install_state boxer.Services.now boxer.Services.observe
        boxer.Services.write ◌>>=◌
    marks state apart s = marked vm_id state _ s.0.vms apart

    Settled-Ignores : Ignores (Settled vm_id)
    unfolding Notices.add_event
    Settled-Ignores = record { event = λ id message level project_id vm_id' t db h. h }

    event-Keeps :
        (level : Level) (message : String)
        → Keeps
            (OnDb {World = World} (Settled vm_id))
            (add_event backends.services level message none (some vm_id))
    event-Keeps level message =
        Keeps-add_event backends.services level message none (some vm_id) Settled-Ignores

    state-Keeps :
        (t : ℕ)
        → Keeps (OnDb {World = World} (Settled vm_id)) (write (update_vm_state vm_id running t))
    unfolding update_vm_state
    state-Keeps t =
        Keeps-write _ λ db h. All-update _ (by_id vm_id) _ db.vms (λ r settled. settled) h

    boot_installed-Moves :
        (name : String)
        → Moves (λ _. Unit) (OnDb (Settled vm_id)) (boot_installed backends others vm_id name)
    unfolding boot_installed
    boot_installed-Moves name =
        Moves-recover _ _
          (Leaves-after _ _ λ _. Leaves-after _ _ λ _.
            Leaves-before _ _ (record { at = λ s a e. record { db = marks installed (λ e. cc) s } })
              λ _. Keeps-bind _ _ (Keeps-now backends.services) λ t.
                Keeps-bind _ _ (state-Keeps t) λ _.
                  Keeps-bind _ _ (event-Keeps Level.info "install completed")
                    λ _. Keeps-pure booted)
          (record { at = λ s h. h })
          (λ e.
            Moves-after _ _ (record { at = λ s h. record { db = marks failed (λ e. cc) s } })
              λ _. Keeps-pure gave_up)

    failure-Returns :
        Returns
          (λ w. w ≢ timed_out)
          (do note_install_state backends others vm_id failed; pure gave_up)
    unfolding note_install_state boxer.Services.now boxer.Services.observe boxer.Services.write
        ◌>>=◌ pure
    failure-Returns = record { at = λ s. (gave_up, refl, λ q. cc) }

    boot_installed-Returns :
        (name : String) → Returns (λ w. w ≢ timed_out) (boot_installed backends others vm_id name)
    unfolding boot_installed
    boot_installed-Returns name =
        Returns-recover _ _
          (Gives-bind _ _ λ _. Gives-bind _ _ λ _. Gives-bind _ _ λ _.
            Gives-bind _ _ λ _. Gives-bind _ _ λ _. Gives-bind _ _ λ _. Gives-pure booted (λ q. cc))
          (λ e. failure-Returns)

    -- What follows the loop, up to a deadline that has passed if the domain is not off.
    abbrev Ends : Bool → String → ℕ → Database VmParams × World → Type 0
    Ends off name deadline s =
        let end =
          (if off then boot_installed backends others vm_id name else give_up backends others vm_id)
            s in
        (w : Watched) × (end.0 ≡ ok w)
        × ((w ≢ timed_out) ⊎ (deadline ≤ time end.1.1))
        × Settled vm_id end.1.0

    branch-Ends :
        (clock : IsClock) (off : Bool) (name : String) (deadline : ℕ)
        (s : Database VmParams × World)
        → ((off ≡ false) → deadline ≤ time s.1)
        → Ends off name deadline s
    unfolding give_up note_install_state boxer.Services.now boxer.Services.observe
        boxer.Services.write boxer.Services.add_event boxer.Services.new_id boxer.Services.on_host
        Notices.add_event update_vm_install_state ◌>>=◌ pure
    branch-Ends clock true name deadline s h =
        let (w, e, apart) = (boot_installed-Returns name).at s in
        (w, e, inl apart, ((boot_installed-Moves name).at s tt).db)
    branch-Ends clock false name deadline s h = (
      timed_out,
      refl,
      inr (omega (arith, h refl, clock.ids s.1)),
      marked vm_id failed _ s.0.vms (λ e. cc),
    )

    -- If a pause takes its time and nothing turns the clock back, a watch with a number of seconds
    -- returns, raises nothing, and leaves the machine, if its row is still there, out of
    -- installation; it gives up for lack of time only when that time has passed.
    pub watch_install-settles :
        (clock : IsClock) (timeout_seconds : ℕ) (name : String) (db : Database VmParams)
        (world : World)
        → let end = watch_install backends others timeout_seconds vm_id name (db, world) in
          (w : Watched) × (end.0 ≡ ok w)
          × ((w ≢ timed_out) ⊎ (time world + timeout_seconds ≤ time end.1.1))
          × Settled vm_id end.1.0
    unfolding watch_install tick boxer.Daemon.Request.pause boxer.Services.observe
        boxer.Services.on_host boxer.Action.modify ◌>>=◌
    watch_install-settles clock timeout_seconds name db world =
        let slept = backends.timer.sleep 15 world in
        let after = others (db, slept) in
        let deadline = time world + timeout_seconds in
        let (off, e, late) =
          watch_loop-ends clock timeout_seconds deadline name after.0 after.1
            (omega (arith, clock.sleeps 15 world, clock.forward db slept)) in
        let loop = watch_loop backends others timeout_seconds deadline name after in
        rw e (branch-Ends clock off name deadline loop.1 late)
