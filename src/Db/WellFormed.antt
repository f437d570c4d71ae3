-- ===== src/Db/WellFormed.antt =====
-- The constraints of the schema hold after every operation that writes the tables.
use boxer.Base.{
  ℕ, String, true, false, ◌≡◌, refl, subst, List, [], ◌∷◌, ◌++◌, ◌==◌, eq_iff, All, All-append,
  All-imp, has, Distinct, Distinct-select, Distinct-update, Distinct-append, has-update, has-append,
  has-delete, All-select, All-update, All-delete, delete_where, update_where, arith, Bool-cases,
  inl, inr,
}
use boxer.Ipc.{ok}
use boxer.Types.{VmRecord, CleanupAction}
use boxer.Db.Schema.{Database, ProjectRow, VmRow, TagRow, empty}
use boxer.Db.Projects.{upsert_project, upserted, touched, project_path}
use boxer.Db.Vms.{by_id, row_of, insert_vm, insert_tags, delete_vm, update_vm}
use boxer.Db.Activity.{upsert_cleanup_action, upserted_action, delete_cleanup_action, action_of}

-- The machine of a row is in `vms`.
abbrev pub HasVm : List VmRow → String → Type 0
HasVm rows vm_id = has (λ r. r.id) vm_id rows ≡ true

abbrev pub HasProject : List ProjectRow → String → Type 0
HasProject rows project_id = has (λ p. p.id) project_id rows ≡ true

-- PRIMARY KEY, UNIQUE and FOREIGN KEY of the tables that machines depend on.
pub record IsWellFormed {Request : Type 0} (db : Database Request) : Type 0 where
  pub project_ids : Distinct (λ p. p.id) db.projects
  pub vm_ids : Distinct (λ r. r.id) db.vms
  pub vm_names : Distinct (λ r. r.libvirt_name) db.vms
  pub vm_projects : All (λ r. HasProject db.projects r.project_id) db.vms
  pub tag_vms : All (λ t. HasVm db.vms t.vm_id) db.vm_tags
  pub action_ids : Distinct (λ a. a.vm_id) db.vm_cleanup_actions
  pub action_vms : All (λ a. HasVm db.vms a.vm_id) db.vm_cleanup_actions

empty-IsWellFormed : (Request : Type 0) → IsWellFormed (empty Request)
empty-IsWellFormed Request = record {
  project_ids = tt;
  vm_ids = tt;
  vm_names = tt;
  vm_projects = tt;
  tag_vms = tt;
  action_ids = tt;
  action_vms = tt;
}

delete_vm-keeps :
    (rows : List VmRow) (d k : String)
    → (k == d) ≡ false
    → HasVm rows k
    → HasVm (delete_where (by_id d) rows) k
delete_vm-keeps rows d k e h =
    ground (arith, has-delete (λ r. r.id) k d rows, eq_iff k d, eq_iff d k)

module _ {Request : Type 0} where
  -- An update of a machine that keeps its id, name and project keeps every constraint.
  pub update_vm-IsWellFormed :
      (db : Database Request) (vm_id : String) (f : VmRow → VmRow)
      → ((r : VmRow) → (f r).id ≡ r.id)
      → ((r : VmRow) → (f r).libvirt_name ≡ r.libvirt_name)
      → ((r : VmRow) → (f r).project_id ≡ r.project_id)
      → IsWellFormed db
      → IsWellFormed (update_vm vm_id f db)
  update_vm-IsWellFormed db vm_id f same_id same_name same_project w = record {
    project_ids = w.project_ids;
    vm_ids = Distinct-update (λ r. r.id) (by_id vm_id) f db.vms same_id w.vm_ids;
    vm_names = Distinct-update (λ r. r.libvirt_name) (by_id vm_id) f db.vms same_name w.vm_names;
    vm_projects =
        All-update (λ r. HasProject db.projects r.project_id) (by_id vm_id) f db.vms
          (λ r h. rw (same_project r) h) w.vm_projects;
    tag_vms =
        All-imp _ _ db.vm_tags
          (λ t h. rw (has-update (λ r. r.id) t.vm_id (by_id vm_id) f db.vms same_id) h) w.tag_vms;
    action_ids = w.action_ids;
    action_vms =
        All-imp _ _ db.vm_cleanup_actions
          (λ a h. rw (has-update (λ r. r.id) a.vm_id (by_id vm_id) f db.vms same_id) h)
          w.action_vms;
  }

  pub delete_vm-IsWellFormed :
      (db : Database Request) (vm_id : String) → IsWellFormed db → IsWellFormed (delete_vm vm_id db)
  unfolding delete_vm
  delete_vm-IsWellFormed db vm_id w = record {
    project_ids = w.project_ids;
    vm_ids = Distinct-select (λ r. r.id) _ db.vms w.vm_ids;
    vm_names = Distinct-select (λ r. r.libvirt_name) _ db.vms w.vm_names;
    vm_projects = All-select (λ r. HasProject db.projects r.project_id) _ db.vms w.vm_projects;
    tag_vms =
        All-delete _ _ (λ t. t.vm_id == vm_id) db.vm_tags
          (λ t e h. delete_vm-keeps db.vms vm_id t.vm_id e h) w.tag_vms;
    action_ids = Distinct-select (λ a. a.vm_id) _ db.vm_cleanup_actions w.action_ids;
    action_vms =
        All-delete _ _ (λ a. a.vm_id == vm_id) db.vm_cleanup_actions
          (λ a e h. delete_vm-keeps db.vms vm_id a.vm_id e h) w.action_vms;
  }

insert_tags-keeps :
    (P : String → Type 0) (vm_id : String) (tags : List (String × String)) (rows : List TagRow)
    → P vm_id
    → All (λ t. P t.vm_id) rows
    → All (λ t. P t.vm_id) (insert_tags vm_id tags rows)
unfolding insert_tags
insert_tags-keeps P vm_id [] rows p h = h
insert_tags-keeps P vm_id ((k, v) ∷ tags) rows p h = insert_tags-keeps P vm_id tags _ p (
    All-append (λ t. P t.vm_id) (delete_where _ rows) _ (All-select (λ t. P t.vm_id) _ rows h)
      (p, tt))

has-append_left :
    (rows : List VmRow) (r : VmRow) (k : String) → HasVm rows k → HasVm (rows ++ r ∷ []) k
has-append_left rows r k h = rw (has-append (λ r. r.id) k rows (r ∷ [])) (ground arith)

has-append_last : (rows : List VmRow) (r : VmRow) → HasVm (rows ++ r ∷ []) r.id
has-append_last rows r =
    rw (has-append (λ r. r.id) r.id rows (r ∷ [])) (ground (arith, eq_iff r.id r.id))

replace-has :
    (a : CleanupAction) (k : String) (rows : List CleanupAction)
    → has (λ r. r.vm_id) k (update_where (action_of a.vm_id) (λ _. a) rows)
      ≡ has (λ r. r.vm_id) k rows
replace-has a k [] = refl
replace-has a k (r ∷ rows) =
    ground (arith, replace-has a k rows, eq_iff r.vm_id a.vm_id, eq_iff r.vm_id k, eq_iff a.vm_id k)

replace-Distinct :
    (a : CleanupAction) (rows : List CleanupAction)
    → Distinct (λ r. r.vm_id) rows
    → Distinct (λ r. r.vm_id) (update_where (action_of a.vm_id) (λ _. a) rows)
replace-Distinct a [] h = tt
replace-Distinct a (r ∷ rows) h = ground (
  arith,
  replace-Distinct a rows h.1,
  replace-has a r.vm_id rows,
  replace-has a a.vm_id rows,
  eq_iff r.vm_id a.vm_id,
  h.0,
)

upserted_action-Distinct :
    (a : CleanupAction) (rows : List CleanupAction)
    → Distinct (λ r. r.vm_id) rows
    → Distinct (λ r. r.vm_id) (upserted_action a rows)
unfolding upserted_action
upserted_action-Distinct a rows h = elim (Bool-cases (has (λ r. r.vm_id) a.vm_id rows)) [
  | inl old ↦ rw old (replace-Distinct a rows h)
  | inr new ↦ rw new (Distinct-append (λ r. r.vm_id) rows a h new)
]

pub upserted_action-All :
    (P : CleanupAction → Type 0) (a : CleanupAction) (rows : List CleanupAction)
    → P a
    → All P rows
    → All P (upserted_action a rows)
unfolding upserted_action
upserted_action-All P a rows p h = elim (Bool-cases (has (λ r. r.vm_id) a.vm_id rows)) [
  | inl old ↦ rw old (All-update P (action_of a.vm_id) (λ _. a) rows (λ _ _. p) h)
  | inr new ↦ rw new (All-append P rows _ h (p, tt))
]

upserted-Distinct :
    (project_id path : String) (now : ℕ) (rows : List ProjectRow)
    → Distinct (λ p. p.id) rows
    → Distinct (λ p. p.id) (upserted project_id path now rows)
unfolding upserted
upserted-Distinct project_id path now rows h = elim (Bool-cases (has (λ p. p.id) project_id rows)) [
  | inl old ↦ rw old (Distinct-update (λ p. p.id) _ (touched path now) rows (λ p. refl) h)
  | inr new ↦ rw new (Distinct-append (λ p. p.id) rows _ h new)
]

upserted-has :
    (project_id path k : String) (now : ℕ) (rows : List ProjectRow)
    → HasProject rows k
    → HasProject (upserted project_id path now rows) k
unfolding upserted
upserted-has project_id path k now rows h = elim (Bool-cases (has (λ p. p.id) project_id rows)) [
  | inl old ↦ rw old (rw (has-update (λ p. p.id) k _ (touched path now) rows (λ p. refl)) h)
  | inr new ↦ rw new (rw (has-append (λ p. p.id) k rows _) (ground arith))
]

module _ {Request : Type 0} (db : Database Request) where
  pub upsert_cleanup_action-accepted :
      (a : CleanupAction) {db' : Database Request}
      → upsert_cleanup_action a db ≡ ok db'
      → HasVm db.vms a.vm_id
        × (record db { vm_cleanup_actions = upserted_action a db.vm_cleanup_actions } ≡ db')
  unfolding upsert_cleanup_action
  upsert_cleanup_action-accepted a h = ground arith

module _ {Request : Type 0} (db : Database Request) (w : IsWellFormed db) where
  -- What the statement accepts is fresh, and its project is there.
  pub insert_vm-accepted :
      (vm : VmRecord) {db' : Database Request}
      → insert_vm vm db ≡ ok db'
      → (has (λ r. r.id) vm.id db.vms ≡ false)
        × (has (λ r. r.libvirt_name) vm.libvirt_name db.vms ≡ false)
        × HasProject db.projects vm.project_id
        × (record db {
          vms = db.vms ++ row_of vm ∷ [];
          vm_tags = insert_tags vm.id vm.tags db.vm_tags;
        }
            ≡ db')
  unfolding insert_vm
  insert_vm-accepted vm h = ground arith

  pub insert_vm-IsWellFormed :
      (vm : VmRecord) {db' : Database Request} → insert_vm vm db ≡ ok db' → IsWellFormed db'
  unfolding row_of
  insert_vm-IsWellFormed vm h =
      let (fresh_id, fresh_name, project, e) = insert_vm-accepted vm h in
      subst IsWellFormed e record {
        project_ids = w.project_ids;
        vm_ids = Distinct-append (λ r. r.id) db.vms (row_of vm) w.vm_ids fresh_id;
        vm_names = Distinct-append (λ r. r.libvirt_name) db.vms (row_of vm) w.vm_names fresh_name;
        vm_projects =
            All-append (λ r. HasProject db.projects r.project_id) db.vms _ w.vm_projects
              (project, tt);
        tag_vms =
            insert_tags-keeps (HasVm (db.vms ++ row_of vm ∷ [])) vm.id vm.tags db.vm_tags
              (has-append_last db.vms (row_of vm))
              (All-imp _ _ db.vm_tags (λ t. has-append_left db.vms (row_of vm) t.vm_id) w.tag_vms);
        action_ids = w.action_ids;
        action_vms =
            All-imp _ _ db.vm_cleanup_actions (λ a. has-append_left db.vms (row_of vm) a.vm_id)
              w.action_vms;
      }

  pub delete_cleanup_action-IsWellFormed :
      (vm_id : String) → IsWellFormed (delete_cleanup_action vm_id db)
  unfolding delete_cleanup_action
  delete_cleanup_action-IsWellFormed vm_id = record {
    project_ids = w.project_ids;
    vm_ids = w.vm_ids;
    vm_names = w.vm_names;
    vm_projects = w.vm_projects;
    tag_vms = w.tag_vms;
    action_ids = Distinct-select (λ a. a.vm_id) _ db.vm_cleanup_actions w.action_ids;
    action_vms = All-select (λ a. HasVm db.vms a.vm_id) _ db.vm_cleanup_actions w.action_vms;
  }

  pub upsert_cleanup_action-IsWellFormed :
      (a : CleanupAction) {db' : Database Request}
      → upsert_cleanup_action a db ≡ ok db'
      → IsWellFormed db'
  upsert_cleanup_action-IsWellFormed a h =
      let (there, e) = upsert_cleanup_action-accepted db a h in
      subst IsWellFormed e record {
        project_ids = w.project_ids;
        vm_ids = w.vm_ids;
        vm_names = w.vm_names;
        vm_projects = w.vm_projects;
        tag_vms = w.tag_vms;
        action_ids = upserted_action-Distinct a db.vm_cleanup_actions w.action_ids;
        action_vms =
            upserted_action-All (λ b. HasVm db.vms b.vm_id) a db.vm_cleanup_actions there
              w.action_vms;
      }

  upsert_project-accepted :
      (project_id path : String) (now : ℕ) {db' : Database Request}
      → upsert_project project_id path now db ≡ ok db'
      → record db { projects = upserted project_id (project_path project_id path) now db.projects }
        ≡ db'
  unfolding upsert_project
  upsert_project-accepted project_id path now h = ground arith

  pub upsert_project-IsWellFormed :
      (project_id path : String) (now : ℕ) {db' : Database Request}
      → upsert_project project_id path now db ≡ ok db'
      → IsWellFormed db'
  upsert_project-IsWellFormed project_id path now h =
      let rows' = upserted project_id (project_path project_id path) now db.projects in
      subst IsWellFormed (upsert_project-accepted project_id path now h) record {
        project_ids = upserted-Distinct project_id _ now db.projects w.project_ids;
        vm_ids = w.vm_ids;
        vm_names = w.vm_names;
        vm_projects =
            All-imp _ _ db.vms (λ r. upserted-has project_id _ r.project_id now db.projects)
              w.vm_projects;
        tag_vms = w.tag_vms;
        action_ids = w.action_ids;
        action_vms = w.action_vms;
      }
