-- ===== src/Daemon/Deletion.antt =====
-- What vm.delete of boxerd/daemon.py leaves in the database.
use boxer.Base.{
  ℕ, String, false, ◌≡◌, refl, ap, sym, ◌∙◌, Option, none, some, List, [], ◌∷◌, ◌==◌, eq_refl,
}
use boxer.Ipc.{ok}
use boxer.Types.{VmRecord, VmState, deleting, CallerIdentity, Level}
use boxer.Db.Schema.{Database}
use boxer.Db.Vms.{get_vm, update_vm_state, delete_vm}
use boxer.Db.Notices
use boxer.Db.Frame.{get_vm-update_vm_state, get_vm-delete_vm}
use boxer.Db.WellFormed.{IsWellFormed, update_vm-IsWellFormed, delete_vm-IsWellFormed}
use boxer.Db.Statements.Keeps.{other-IsWellFormed}
use boxer.Action.{◌>>=◌}
use boxer.Action.Keeps.{Keeps, Keeps-bind, keeps_rules}
use boxer.Action.Leaves.{Leaves, Leaves-before, Leaves-after}
use boxer.Services.{Services, add_event}
use boxer.Services.Keeps.{
  OnDb, Ignores, service_rules, Keeps-write, Leaves-write, Keeps-add_event, Keeps-now,
  Keeps-on_host,
}
use boxer.Daemon.{target}
use boxer.Daemon.Lifecycle.{
  Network, drop_if_last, drop_network, drop_storage, delete_machine, h_vm_delete,
}

module _ {Request World : Type 0} (services : Services World) (network : Network World)
    {P : Database Request → Type 0} (ignores : Ignores P) where
  target-Keeps :
      (action : String) (caller : CallerIdentity) (id : String)
      → Keeps (OnDb {World = World} P) (target action caller id)
  unfolding target
  target-Keeps action caller id = search (keeps_rules, service_rules)

  drop_if_last-Keeps :
      (project_id : String) (vms : List VmRecord)
      → Keeps (OnDb P) (drop_if_last network project_id vms)
  drop_if_last-Keeps project_id [] = search (keeps_rules, service_rules)
  drop_if_last-Keeps project_id (_ ∷ _) = search (keeps_rules, service_rules)

  drop_network-Keeps : (vm : VmRecord) → Keeps (OnDb P) (drop_network network vm)
  unfolding drop_network
  drop_network-Keeps vm = search (keeps_rules, service_rules, drop_if_last-Keeps) depth 8

  drop_storage-Keeps : (vm : VmRecord) → Keeps (OnDb P) (drop_storage services vm)
  drop_storage-Keeps vm = search (keeps_rules, service_rules)

  -- The rest, once the machine's row is gone.
  after_delete-Keeps :
      (vm : VmRecord) (message : String) (project_id vm_id : Option String)
      → Keeps
          (OnDb P)
          (drop_network network vm >>= λ _. add_event services Level.info message project_id vm_id)
  after_delete-Keeps vm message project_id vm_id =
      Keeps-bind _ _ (drop_network-Keeps vm)
        λ _. Keeps-add_event services Level.info message project_id vm_id ignores

  delete_machine-Keeps :
      (caller : CallerIdentity) (id : String)
      → ((s : VmState) (t : ℕ) (db : Database Request) → P db → P (update_vm_state id s t db))
      → ((db : Database Request) → P db → P (delete_vm id db))
      → Keeps (OnDb P) (delete_machine services network caller id)
  unfolding delete_machine
  delete_machine-Keeps caller id state deletion =
      Keeps-bind _ _ (target-Keeps "vm.delete" caller id) λ vm.
        Keeps-bind _ _ (Keeps-now services) λ t.
          Keeps-bind _ _ (Keeps-write _ (state deleting t)) λ _.
            Keeps-bind _ _ (Keeps-on_host _) λ _.
              Keeps-bind _ _ (drop_storage-Keeps vm)
                λ _. Keeps-bind _ _ (Keeps-write _ deletion) λ _. after_delete-Keeps vm _ _ _

  delete_machine-Leaves :
      (caller : CallerIdentity) (id : String)
      → ((db : Database Request) → P (delete_vm id db))
      → Leaves (OnDb P) (delete_machine services network caller id)
  unfolding delete_machine
  delete_machine-Leaves caller id deletion = Leaves-after _ _ λ vm. Leaves-after _ _ λ t.
      Leaves-after _ _ λ _. Leaves-after _ _ λ _.
        Leaves-after _ _
          λ _. Leaves-before _ _ (Leaves-write _ deletion) λ _. after_delete-Keeps vm _ _ _

module _ {Request World : Type 0} (services : Services World) (network : Network World) where
  get_vm-Ignores :
      (j : String) (o : Option VmRecord) → Ignores {Request = Request} (λ db. get_vm j db ≡ o)
  unfolding get_vm Notices.add_event
  get_vm-Ignores j o = record { event = λ id message level project_id vm_id t db h. h }

  h_vm_delete-given :
      (caller : CallerIdentity) (vm_id : String) (s : Database Request × World)
      → (vm_id == "") ≡ false
      → h_vm_delete services network caller (some vm_id) s
        ≡ delete_machine services network caller vm_id s
  unfolding h_vm_delete ◌>>=◌
  h_vm_delete-given caller vm_id s given = rw given refl

  -- Where vm.delete returns, for an id that is given, the machine is gone.
  pub h_vm_delete-gone :
      (caller : CallerIdentity) (vm_id : String) (db : Database Request) (world : World)
      → (vm_id == "") ≡ false
      → (h_vm_delete services network caller (some vm_id) (db, world)).0 ≡ ok tt
      → get_vm vm_id (h_vm_delete services network caller (some vm_id) (db, world)).1.0 ≡ none
  h_vm_delete-gone caller vm_id db world given h =
      let gone =
        delete_machine-Leaves services network (get_vm-Ignores vm_id none) caller vm_id
          (λ db. rw (get_vm-delete_vm db vm_id vm_id) (rw (eq_refl vm_id) refl)) in
      let same = h_vm_delete-given caller vm_id (db, world) given in
      rw same (gone.at (db, world) tt (ap (λ r. r.0) (sym same) ∙ h)).db

  -- Whether vm.delete returns or raises, for an id that is given, every machine of another id is
  -- read as before.
  pub h_vm_delete-others :
      (caller : CallerIdentity) (vm_id other : String) (db : Database Request) (world : World)
      → (vm_id == "") ≡ false
      → (vm_id == other) ≡ false
      → get_vm other (h_vm_delete services network caller (some vm_id) (db, world)).1.0
        ≡ get_vm other db
  h_vm_delete-others caller vm_id other db world given apart =
      let kept =
        delete_machine-Keeps services network (get_vm-Ignores other (get_vm other db)) caller vm_id
          (λ s t db' h. rw (get_vm-update_vm_state db' other vm_id s t) (rw apart h))
          (λ db' h. rw (get_vm-delete_vm db' other vm_id) (rw apart h)) in
      rw (h_vm_delete-given caller vm_id (db, world) given)
        (kept.at (db, world) (record { db = refl })).db

  -- Whether vm.delete returns or raises, for an id that is given, the constraints of the schema
  -- stay true.
  pub h_vm_delete-IsWellFormed :
      (caller : CallerIdentity) (vm_id : String) (db : Database Request) (world : World)
      → (vm_id == "") ≡ false
      → IsWellFormed db
      → IsWellFormed (h_vm_delete services network caller (some vm_id) (db, world)).1.0
  unfolding update_vm_state Notices.add_event
  h_vm_delete-IsWellFormed caller vm_id db world given w =
      let ignores : Ignores IsWellFormed = record {
        event = λ id message level project_id vm_id t db h. other-IsWellFormed db _ _ _ _ h;
      } in
      let kept =
        delete_machine-Keeps services network ignores caller vm_id
          (λ s t db' h. update_vm-IsWellFormed db' vm_id _ (λ _. refl) (λ _. refl) (λ _. refl) h)
          (λ db' h. delete_vm-IsWellFormed db' vm_id h) in
      rw (h_vm_delete-given caller vm_id (db, world) given)
        (kept.at (db, world) (record { db = w })).db
