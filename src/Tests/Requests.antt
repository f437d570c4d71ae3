-- ===== src/Tests/Requests.antt =====
-- The theorems on the requests of boxerd/daemon.py at concrete inputs.
use boxer.Base.{ℕ, ◌+◌, ◌≤◌, ◌≡◌, ◌≢◌, ◌⊎◌, refl, none, some, [], ◌∷◌, arith, pos}
use boxer.Ipc.{ok}
use boxer.Db.Schema.{Database}
use boxer.Db.Vms.{list_vms}
use boxer.Json.{Fields, field, item, no_items, no_fields, number, integer, str, array, object}
use boxer.Scheduler.{process_queue, used_disk}
use boxer.Scheduler.Quota.{WithinQuota}
use boxer.Scheduler.Runner.{IsIdle}
use boxer.Samples.{caps}
use boxer.Samples.Requests.{request, backends, android, waiting}
use boxer.Daemon.Params.{bounded_int}
use boxer.Daemon.Params.Bounds.{bounded_int-bounds}
use boxer.Daemon.Bootstrap.{WriteFile, parse_file_injections}
use boxer.Daemon.Bootstrap.Limits.{WithinLimits, parse_file_injections-WithinLimits}
use boxer.Daemon.Hosting.{VmParams}
use boxer.Daemon.Request.{h_vm_request}
use boxer.Daemon.Installer.Request.{h_vm_request_installer}
use boxer.Daemon.Android.{h_android_request}
use boxer.Daemon.Promotion.{promotion}
use boxer.Daemon.Promotion.Quota.{requests-WithinQuota}
use boxer.Daemon.Promotion.Constraints.{promotion-IsIdle}
use boxer.Daemon.Installer.Watcher.{Watched, timed_out, watch_install}
use boxer.Daemon.Installer.Watcher.Settles.{IsClock, Settled, watch_install-settles}

abbrev State : Type 0
State = Database VmParams × ℕ

abbrev idle_others : State → State
idle_others s = s

waiting-WithinQuota : WithinQuota caps waiting
unfolding list_vms used_disk
waiting-WithinQuota project_id named = omega arith

requests-WithinQuota_example :
    WithinQuota caps (h_vm_request backends request (waiting, 500)).1.0
    × WithinQuota caps (h_vm_request_installer backends idle_others request (waiting, 500)).1.0
    × WithinQuota caps (h_android_request backends android request (waiting, 500)).1.0
requests-WithinQuota_example =
    requests-WithinQuota backends android idle_others (λ s w. w) request waiting 500
      waiting-WithinQuota

promotion-IsIdle_example :
    IsIdle (process_queue (promotion backends android idle_others) (waiting, 500)).0
promotion-IsIdle_example =
    promotion-IsIdle backends android idle_others (λ k s h. h) waiting 500 ((λ e. cc), tt)

bounded_int-bounds_example : (1 ≤ 30) × (30 ≤ 3600)
unfolding bounded_int
bounded_int-bounds_example =
    bounded_int-bounds (λ s. none) (some (number (integer (pos 30)))) 30 1 3600 30 refl

abbrev one_file : Fields
one_file =
    field "write_files"
      (array (
        item (object (field "path" (str "/etc/motd") (field "content" (str "hi") no_fields)))
          no_items))
      no_fields

abbrev motd : WriteFile
motd = record { path = "/etc/motd"; content = "hi"; permissions = "0644"; owner = "root:root" }

parse_file_injections-WithinLimits_example : WithinLimits (motd ∷ [])
unfolding parse_file_injections
parse_file_injections-WithinLimits_example =
    parse_file_injections-WithinLimits one_file no_fields (motd ∷ []) 0 refl

simple_clock : IsClock backends idle_others
simple_clock = record {
  sleeps = λ n world. omega arith;
  forward = λ db world. omega arith;
  ids = λ world. omega arith;
}

watch_install-settles_example :
    let end = watch_install backends idle_others 7200 "vm_a1b2c3" "Boxer--x" (waiting, 500) in
    (w : Watched) × (end.0 ≡ ok w)
    × ((w ≢ timed_out) ⊎ (500 + 7200 ≤ end.1.1))
    × Settled "vm_a1b2c3" end.1.0
watch_install-settles_example =
    watch_install-settles backends idle_others "vm_a1b2c3" simple_clock 7200 "Boxer--x" waiting 500
