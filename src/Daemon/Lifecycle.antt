-- ===== src/Daemon/Lifecycle.antt =====
-- The handlers vm.list, vm.get, vm.start, vm.stop, vm.restart, vm.delete and vm.extend_lease of
-- boxerd/daemon.py.
use boxer.Base.{
  ℤ, ℕ, String, Bool, true, false, not, ◌&&◌, Option, none, some, List, [], ◌∷◌, min, max, ltb,
  if◌then◌else◌,
}
use boxer.Ipc.{Result}
use boxer.Types.{
  VmRecord, VmState, running, stopped, deleting, state_eq, CallerIdentity, Level, is_vm, is_boxer,
}
use boxer.Db.Vms.{
  get_vm, list_vms, touch_vm, update_vm_state, update_vm_ip, update_vm_lease, delete_vm,
}
use boxer.Policy.{check, check_vm_list_visibility}
use boxer.Action.{pure, lift, ◌>>=◌, ◌>>◌}
use boxer.Services.{Services, ops_for, on_host, query, observe, write, now, add_event}
use boxer.LeaseManager.{truthy}
use boxer.Daemon.{required, present, target, later, Handler}

-- The calls of `NetworkManager` (boxerd/network_ops.py), which asks libvirt.
pub record Network (World : Type 0) : Type 0 where
  pub has_active_vms : String → World → Result Bool × World
  pub teardown_project_network : String → World → Result (Unit {0}) × World

-- `_vm_to_dict` with the fields that a handler adds.
pub record VmView : Type 0 where
  pub vm : VmRecord
  pub live_state : VmState
  pub is_stale : Bool

-- The answer of vm.start and vm.restart; `polls` tells that a `_poll_ip` task was started.
pub record Started : Type 0 where
  pub ip_address : Option String
  pub polls : Bool

-- list_vms(None if caller.is_admin else caller.project_id)
abbrev pub scope : CallerIdentity → Option String
scope caller = if caller.is_admin then none else some caller.project_id

abbrev hides : Bool → VmView → Bool
hides include_stale v = not include_stale && (v.is_stale && state_eq v.live_state stopped)

abbrev lacks_address : VmView → Bool
lacks_address v =
    is_vm v.vm.kind
    && (elim (truthy v.vm.ip_address) [ none ↦ true | some ip ↦ false ]
        && state_eq v.live_state running)

module _ {World : Type 0} (services : Services World) where
  abbrev view : World → ℕ → VmRecord → VmView
  view world t vm = record {
    vm = vm;
    live_state = (ops_for services vm.kind).get_state vm.libvirt_name world;
    is_stale = ltb vm.lease_until t;
  }

  -- The loop of vm.list.
  unfoldable pub views : CallerIdentity → Bool → World → ℕ → List VmRecord → List VmView
  views caller include_stale world t [] = []
  views caller include_stale world t (vm ∷ vms) =
      let rest = views caller include_stale world t vms in
      if not (check_vm_list_visibility caller vm)
      then rest
      else if hides include_stale (view world t vm)
      then rest
      else view world t vm ∷ rest

module _ {Request World : Type 0} where
  -- The last Linux machine of a project takes the project's network with it.
  abbrev pub drop_if_last :
      Network World → String → List VmRecord → Handler Request World (Unit {0})
  drop_if_last network project_id [] = on_host (network.teardown_project_network project_id)
  drop_if_last network project_id (_ ∷ _) = pure tt

  unfoldable pub drop_network : Network World → VmRecord → Handler Request World (Unit {0})
  drop_network network vm = if not (is_vm vm.kind) then pure tt else do
    active ← on_host (network.has_active_vms vm.project_id)
    if active then pure tt else do
      left ← query (list_vms (some vm.project_id))
      drop_if_last network vm.project_id left

module _ {Request World : Type 0} (services : Services World) where
  unfoldable pub h_vm_list : CallerIdentity → Bool → Handler Request World (List VmView)
  h_vm_list caller include_stale = do
    vms ← query (list_vms (scope caller))
    t ← now services
    observe (λ world. views services caller include_stale world t vms)

  -- The address that vm.get finds, if it looks for one.
  abbrev note_address : VmView → Option String → Handler Request World VmView
  note_address v none = pure v
  note_address v (some ip) = do
    t ← now services
    write (update_vm_ip v.vm.id ip t)
    pure (record v { vm = record v.vm { ip_address = some ip } })

  unfoldable pub h_vm_get : CallerIdentity → Option String → Handler Request World VmView
  h_vm_get caller vm_id = do
    id ← lift (required vm_id)
    found ← query (get_vm id)
    lift (check "vm.get" caller found)
    t ← now services
    write (touch_vm id t)
    vm ← lift (present found)
    v ← observe (λ world. view services world t vm)
    if lacks_address v
        then (do
          ip ← on_host (services.get_ip_via_guest_agent vm.libvirt_name 3)
          note_address v (truthy ip))
        else pure v

  -- `_poll_ip`, the task of its own.
  abbrev noted : String → Option String → Handler Request World (Unit {0})
  noted vm_id none = pure tt
  noted vm_id (some ip) = do t ← now services; write (update_vm_ip vm_id ip t)

  unfoldable pub poll_ip : String → String → Handler Request World (Unit {0})
  poll_ip vm_id libvirt_name = do
    ip ← on_host (services.get_ip_via_guest_agent libvirt_name 120)
    noted vm_id (truthy ip)

  abbrev started_with : VmRecord → Option String → Handler Request World Started
  started_with vm none = pure (record { ip_address = vm.ip_address; polls = true })
  started_with vm (some ip) = do
    t ← now services
    write (update_vm_ip vm.id ip t)
    pure (record { ip_address = some ip; polls = false })

  -- What vm.start and vm.restart do once the machine runs. A negative wait is as none.
  unfoldable pub report_started : VmRecord → ℕ → Handler Request World Started
  report_started vm wait_for_ip_seconds =
      if not (is_vm vm.kind)
      then pure (record { ip_address = vm.ip_address; polls = false })
      else if ltb 0 wait_for_ip_seconds
      then (do
        ip ←
            on_host (
              services.get_ip_via_guest_agent vm.libvirt_name (max 1 (min wait_for_ip_seconds 300)))
        started_with vm (truthy ip))
      else pure (record { ip_address = vm.ip_address; polls = true })

  -- vm.start, once `vm_id` is known to be there.
  unfoldable pub start_machine : ℕ → CallerIdentity → String → Handler Request World Started
  start_machine wait_for_ip_seconds caller id = do
    vm ← target "vm.start" caller id
    on_host ((ops_for services vm.kind).start vm.libvirt_name)
    t ← now services
    write (update_vm_state id running t)
    report_started vm wait_for_ip_seconds

  unfoldable pub h_vm_start : ℕ → CallerIdentity → Option String → Handler Request World Started
  unfolding start_machine
  h_vm_start wait_for_ip_seconds caller vm_id = do
    id ← lift (required vm_id)
    start_machine wait_for_ip_seconds caller id

  unfoldable pub h_vm_stop :
      Bool → CallerIdentity → Option String → Handler Request World (Unit {0})
  h_vm_stop graceful caller vm_id = do
    id ← lift (required vm_id)
    vm ← target "vm.stop" caller id
    on_host ((ops_for services vm.kind).stop vm.libvirt_name graceful)
    t ← now services
    write (update_vm_state id stopped t)

  unfoldable pub h_vm_restart :
      Bool → ℕ → CallerIdentity → Option String → Handler Request World Started
  h_vm_restart graceful wait_for_ip_seconds caller vm_id = do
    id ← lift (required vm_id)
    vm ← target "vm.restart" caller id
    on_host ((ops_for services vm.kind).stop vm.libvirt_name graceful)
    on_host ((ops_for services vm.kind).start vm.libvirt_name)
    t ← now services
    write (update_vm_state id running t)
    report_started vm wait_for_ip_seconds

  abbrev pub drop_storage : VmRecord → Handler Request World (Unit {0})
  drop_storage vm =
      if is_vm vm.kind && is_boxer vm.origin
      then on_host (services.delete_vm_storage vm.project_id vm.id)
      else pure tt

  -- vm.delete, once `vm_id` is known to be there.
  unfoldable pub delete_machine :
      Network World → CallerIdentity → String → Handler Request World (Unit {0})
  unfolding drop_network
  delete_machine network caller id = do
    vm ← target "vm.delete" caller id
    t ← now services
    write (update_vm_state id deleting t)
    on_host ((ops_for services vm.kind).undefine vm.libvirt_name)
    drop_storage vm
    write (delete_vm id)
    drop_network network vm
    add_event services Level.info "deleted" (some vm.project_id) (some id)

  unfoldable pub h_vm_delete :
      Network World → CallerIdentity → Option String → Handler Request World (Unit {0})
  unfolding delete_machine
  h_vm_delete network caller vm_id = do id ← lift (required vm_id); delete_machine network caller id

  unfoldable pub h_vm_extend_lease : ℤ → CallerIdentity → Option String → Handler Request World ℕ
  h_vm_extend_lease ttl_minutes caller vm_id = do
    id ← lift (required vm_id)
    vm ← target "vm.extend_lease" caller id
    t ← now services
    written_at ← now services
    write (update_vm_lease id (later ttl_minutes (max vm.lease_until t)) written_at)
    pure (later ttl_minutes (max vm.lease_until t))
