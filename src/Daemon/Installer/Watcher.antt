-- ===== src/Daemon/Installer/Watcher.antt =====
-- The watcher of an installation: `_watch_install` and `_wait_for_install` of boxerd/daemon.py. What
-- the daemon's other tasks do during a pause is an argument.
pub mod Settles
use boxer.Base.{
  ℕ, zero, suc, ◌+◌, String, Bool, true, false, not, Option, none, some, ltb, if◌then◌else◌,
}
use boxer.Types.{
  VmRecord, VmState, running, stopped, state_eq, Level, InstallState, installing, installed, failed,
}
use boxer.Db.Schema.{Database}
use boxer.Db.Vms.{get_vm, update_vm_install_state, update_vm_state}
use boxer.Capacity.{Float}
use boxer.Action.{Action, pure, modify, recover, ◌>>=◌, ◌>>◌}
use boxer.Services.{Services, on_host, query, observe, write, now, add_event}
use boxer.Daemon.{Handler}
use boxer.Daemon.Hosting.{VmParams, Backends}
use boxer.Daemon.Request.{pause}

-- How a watch ends; `booted` starts the task `_poll_ip`.
pub data Watched : Type 0 where
  booted gave_up timed_out : Watched

-- vm and vm.install_state in ("installed", "failed")
abbrev pub final : Option VmRecord → Option InstallState
final none = none
final (some vm) = elim vm.install_state [
  | none ↦ none
  | some installing ↦ none
  | some installed ↦ some installed
  | some failed ↦ some failed
]

module _ {float : Float} {World : Type 0} (backends : Backends float World)
    (others : Database VmParams × World → Database VmParams × World) where
  unfoldable pub tick : ℕ → Handler VmParams World (Unit {0})
  unfolding pause
  tick seconds = do pause backends seconds; modify others

  -- The loop up to the power-off, on fuel: whether the domain is off.
  unfoldable pub watch_loop : ℕ → ℕ → String → Handler VmParams World Bool
  unfolding tick
  watch_loop zero deadline libvirt_name = pure false
  watch_loop (suc fuel) deadline libvirt_name = do
    time ← observe backends.timer.loop_time
    if not (ltb time deadline) then pure false else do
      state ← observe (backends.services.vm_ops.get_state libvirt_name)
      if state_eq state stopped
          then pure true
          else do tick 15; watch_loop fuel deadline libvirt_name

  unfoldable pub note_install_state : String → InstallState → Handler VmParams World (Unit {0})
  note_install_state vm_id state = do
    t ← now backends.services
    write (update_vm_install_state vm_id (some state) t)

  -- The machine boots from its disk, or the installation is marked as failed.
  unfoldable pub boot_installed : String → String → Handler VmParams World Watched
  unfolding note_install_state
  boot_installed vm_id libvirt_name =
      recover
        (do
          on_host (backends.host.switch_boot_to_disk libvirt_name)
          on_host (backends.services.vm_ops.start libvirt_name)
          note_install_state vm_id installed
          t ← now backends.services
          write (update_vm_state vm_id running t)
          add_event backends.services Level.info "install completed" none (some vm_id)
          pure booted)
        (λ _. do note_install_state vm_id failed; pure gave_up)

  unfoldable pub give_up : String → Handler VmParams World Watched
  unfolding note_install_state
  give_up vm_id = do
    note_install_state vm_id failed
    add_event backends.services Level.warn "install did not finish" none (some vm_id)
    pure timed_out

  -- A turn of the loop takes 15 seconds, so that the seconds are more than the turns.
  unfoldable pub watch_install : ℕ → String → String → Handler VmParams World Watched
  unfolding watch_loop boot_installed give_up
  watch_install timeout_seconds vm_id libvirt_name = do
    start ← observe backends.timer.loop_time
    tick 15
    off ← watch_loop timeout_seconds (start + timeout_seconds) libvirt_name
    if off then boot_installed vm_id libvirt_name else give_up vm_id

  -- The loop of `_wait_for_install`, on fuel; `none` is "timeout".
  unfoldable pub wait_loop : ℕ → ℕ → String → Handler VmParams World (Option InstallState)
  unfolding tick
  wait_loop zero deadline vm_id = pure none
  wait_loop (suc fuel) deadline vm_id = do
    time ← observe backends.timer.loop_time
    if not (ltb time deadline) then pure none else do
      vm ← query (get_vm vm_id)
      elim (final vm) [
        | some state ↦ pure (some state)
        | none ↦ (do tick 10; wait_loop fuel deadline vm_id)
      ]

  unfoldable pub wait_for_install : String → ℕ → Handler VmParams World (Option InstallState)
  unfolding wait_loop
  wait_for_install vm_id timeout_seconds = do
    start ← observe backends.timer.loop_time
    wait_loop timeout_seconds (start + timeout_seconds) vm_id
