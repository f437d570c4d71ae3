-- ===== src/Db/Vms.antt =====
-- The tables `vms` and `vm_tags`: the operations on machines of boxerd/db.py.
use mathlib.Core.Option
use boxer.Base.{
  ℕ, String, Bool, true, false, not, ◌&&◌, ◌||◌, List, [], ◌∷◌, ◌++◌, map, Option, none, some,
  length, has, first, select, delete_where, update_where, eqb, ◌==◌, if◌then◌else◌,
}
use boxer.Ipc.{Result, ok, err, exception}
use boxer.Types.{VmRecord, VmState, InstallState, installing, installed, failed}
use boxer.Db.Schema.{Database, VmRow, TagRow}

abbrev pub int_of_bool : Bool → ℕ
int_of_bool true = 1
int_of_bool false = 0

-- `bool(row["headless"])`
abbrev pub bool_of_int : ℕ → Bool
bool_of_int n = not (eqb n 0)

-- The values of the INSERT.
unfoldable pub row_of : VmRecord → VmRow
row_of vm = record {
  id = vm.id;
  libvirt_name = vm.libvirt_name;
  project_id = vm.project_id;
  display_name = vm.display_name;
  state = vm.state;
  owner_user = vm.owner_user;
  template = vm.template;
  cpu = vm.cpu;
  ram_mb = vm.ram_mb;
  disk_gb = vm.disk_gb;
  headless = int_of_bool vm.headless;
  ip_address = vm.ip_address;
  created_at = vm.created_at;
  last_touched = vm.last_touched;
  lease_until = vm.lease_until;
  origin = vm.origin;
  artifact_type = vm.artifact_type;
  install_state = vm.install_state;
  kind = vm.kind;
}

unfoldable pub vm_from_row : VmRow → List (String × String) → VmRecord
vm_from_row row tags = record {
  id = row.id;
  libvirt_name = row.libvirt_name;
  project_id = row.project_id;
  display_name = row.display_name;
  state = row.state;
  owner_user = row.owner_user;
  template = row.template;
  cpu = row.cpu;
  ram_mb = row.ram_mb;
  disk_gb = row.disk_gb;
  headless = bool_of_int row.headless;
  created_at = row.created_at;
  last_touched = row.last_touched;
  lease_until = row.lease_until;
  ip_address = row.ip_address;
  tags = tags;
  origin = row.origin;
  artifact_type = row.artifact_type;
  install_state = row.install_state;
  kind = row.kind;
}

abbrev pub is_installing : Option InstallState → Bool
is_installing none = false
is_installing (some installing) = true
is_installing (some installed) = false
is_installing (some failed) = false

-- `if project_id:` takes the empty text for no project.
abbrev pub in_project : Option String → VmRow → Bool
in_project none row = true
in_project (some p) row = if p == "" then true else row.project_id == p

abbrev pub by_id : String → VmRow → Bool
by_id vm_id row = row.id == vm_id

-- INSERT OR REPLACE INTO vm_tags: PRIMARY KEY (vm_id, key)
unfoldable pub insert_tags : String → List (String × String) → List TagRow → List TagRow
insert_tags vm_id [] rows = rows
insert_tags vm_id ((k, v) ∷ tags) rows = insert_tags vm_id tags (
    delete_where (λ t. t.vm_id == vm_id && t.key == k) rows
    ++ record { vm_id = vm_id; key = k; value = v } ∷ [])

module _ {Request : Type 0} where
  unfoldable pub get_tags : Database Request → String → List (String × String)
  get_tags db vm_id = map (λ t. (t.key, t.value)) (select (λ t. t.vm_id == vm_id) db.vm_tags)

  -- PRIMARY KEY id, UNIQUE libvirt_name, FOREIGN KEY project_id
  unfoldable pub insert_refused : VmRecord → Database Request → Bool
  insert_refused vm db =
      has (λ r. r.id) vm.id db.vms
      || has (λ r. r.libvirt_name) vm.libvirt_name db.vms
      || not (has (λ p. p.id) vm.project_id db.projects)

  unfoldable pub insert_vm : VmRecord → Database Request → Result (Database Request)
  unfolding row_of insert_refused
  insert_vm vm db =
      if insert_refused vm db
      then err (exception "IntegrityError")
      else ok (record db {
        vms = db.vms ++ row_of vm ∷ [];
        vm_tags = insert_tags vm.id vm.tags db.vm_tags;
      })

  abbrev with_tags : Database Request → VmRow → VmRecord
  with_tags db row = vm_from_row row (get_tags db row.id)

  unfoldable pub get_vm : String → Database Request → Option VmRecord
  unfolding vm_from_row get_tags
  get_vm vm_id db = Option.map (with_tags db) (first (by_id vm_id) db.vms)

  unfoldable pub get_vm_by_libvirt_name : String → Database Request → Option VmRecord
  unfolding vm_from_row get_tags
  get_vm_by_libvirt_name name db =
      Option.map (with_tags db) (first (λ r. r.libvirt_name == name) db.vms)

  unfoldable pub list_vms : Option String → Database Request → List VmRecord
  unfolding vm_from_row get_tags
  list_vms project_id db = map (with_tags db) (select (in_project project_id) db.vms)

  -- UPDATE vms SET ..., last_touched=now WHERE id=vm_id
  abbrev pub update_vm : String → (VmRow → VmRow) → Database Request → Database Request
  update_vm vm_id f db = record db { vms = update_where (by_id vm_id) f db.vms }

  unfoldable pub update_vm_state : String → VmState → ℕ → Database Request → Database Request
  update_vm_state vm_id state now =
      update_vm vm_id λ r. record r { state = state; last_touched = now }

  unfoldable pub update_vm_ip : String → String → ℕ → Database Request → Database Request
  update_vm_ip vm_id ip now =
      update_vm vm_id λ r. record r { ip_address = some ip; last_touched = now }

  unfoldable pub update_vm_lease : String → ℕ → ℕ → Database Request → Database Request
  update_vm_lease vm_id lease_until now =
      update_vm vm_id λ r. record r { lease_until = lease_until; last_touched = now }

  unfoldable pub update_vm_install_state :
      String → Option InstallState → ℕ → Database Request → Database Request
  update_vm_install_state vm_id install_state now =
      update_vm vm_id λ r. record r { install_state = install_state; last_touched = now }

  unfoldable pub touch_vm : String → ℕ → Database Request → Database Request
  touch_vm vm_id now = update_vm vm_id λ r. record r { last_touched = now }

  -- SELECT COUNT(*) ... WHERE install_state='installing'
  unfoldable pub count_installing_vms : Database Request → ℕ
  count_installing_vms db = length (select (λ r. is_installing r.install_state) db.vms)

  -- ON DELETE CASCADE drops the machine's tags and its cleanup action.
  unfoldable pub delete_vm : String → Database Request → Database Request
  delete_vm vm_id db = record db {
    vms = delete_where (by_id vm_id) db.vms;
    vm_tags = delete_where (λ t. t.vm_id == vm_id) db.vm_tags;
    vm_cleanup_actions = delete_where (λ a. a.vm_id == vm_id) db.vm_cleanup_actions;
  }

  unfoldable pub purge_ghost_record : String → Database Request → Database Request
  unfolding delete_vm
  purge_ghost_record vm_id db = delete_vm vm_id db
