-- ===== src/Reconcile.antt =====
-- boxerd/reconcile.py: the domains of libvirt against the machines of the database. Libvirt, the XML
-- parser and qemu-img are arguments.
pub mod Agreement
use boxer.Base.{
  ℕ, ◌/◌, ◌^◌, max, String, Bool, true, false, not, Option, none, some, List, [], ◌∷◌, map, any,
  ◌==◌, if◌then◌else◌,
}
use boxer.Ipc.{Result, ok, err}
use boxer.Types.{VmRecord}
use boxer.Db.Schema.{Database}
use boxer.Db.Vms.{list_vms}
use boxer.Names.{text, parse_boxer_name}
use boxer.Names.Strings.{string}
use boxer.LeaseManager.{truthy}

-- A domain as `_list_domains` describes it: its name, its XML, and whether it runs.
pub record ListedDomain (Xml : Type 0) : Type 0 where
  pub name : String
  pub xml : Xml
  pub is_active : Bool

-- What libvirt, the XML parser and qemu-img answer.
pub record Libvirt (Xml World : Type 0) : Type 0 where
  -- listAllDomains, then the three questions to each domain
  pub list_all_domains : World → Result (List (Result (ListedDomain Xml)))
  -- lookupByName, then XMLDesc
  pub lookup_by_name : String → World → Option Xml
  -- lookupByName alone
  pub has_domain : String → World → Bool
  -- the attributes `file` and `dev` of the source of each disk, where there is a source
  pub disk_sources : Xml → Option (List (Option (Option String × Option String)))
  -- "virtual-size" of qemu-img info, unless it fails
  pub virtual_size : String → World → Option ℕ

pub record OrphanedBoxerDomain : Type 0 where
  pub libvirt_name : String
  pub parsed_project_id : String
  pub parsed_display_name : String
  pub parsed_vm_id : String
  pub disk_path : Option String
  pub disk_gb : ℕ
  pub is_active : Bool

pub record ForeignDomain : Type 0 where
  pub libvirt_name : String
  pub disk_path : Option String
  pub disk_gb : ℕ
  pub is_active : Bool

pub record GhostRecord : Type 0 where
  pub vm_id : String
  pub libvirt_name : String
  pub project_id : String
  pub display_name : String

pub record ReconcileReport : Type 0 where
  pub orphaned_boxer : List OrphanedBoxerDomain
  pub foreign_vms : List ForeignDomain
  pub ghost_records : List GhostRecord

-- source.get("file") or source.get("dev"), if there is a source
abbrev source_path : Option (Option String × Option String) → Option String
source_path none = none
source_path (some (file, dev)) = elim (truthy file) [ none ↦ truthy dev | some path ↦ some path ]

-- The first path of the list.
unfoldable pub first_path : List (Option (Option String × Option String)) → Option String
first_path [] = none
first_path (source ∷ sources) =
    let rest = first_path sources in
    elim (source_path source) [ none ↦ rest | some path ↦ some path ]

abbrev path_of : Option (List (Option (Option String × Option String))) → Option String
path_of none = none
path_of (some sources) = first_path sources

abbrev described : {Xml : Type 0} → List (Result (ListedDomain Xml)) → List (ListedDomain Xml)
described [] = []
described (ok d ∷ ds) = d ∷ described ds
described (err _ ∷ ds) = described ds

abbrev listed : {Xml : Type 0} → Result (List (Result (ListedDomain Xml))) → List (ListedDomain Xml)
listed (ok ds) = described ds
listed (err _) = []

-- name in libvirt_names
abbrev pub is_listed : {Xml : Type 0} → List (ListedDomain Xml) → String → Bool
is_listed domains name = any (λ d. name == d.name) domains

-- name in db_libvirt_names
abbrev pub is_tracked : List VmRecord → String → Bool
is_tracked vms name = any (λ v. name == v.libvirt_name) vms

abbrev size_of : Option ℕ → ℕ
size_of none = 0
size_of (some bytes) = max 1 (bytes / 1024 ^ 3)

-- The three strings of a parsed name.
abbrev pub parse_name : String → Option (String × String × String)
parse_name name = elim (parse_boxer_name (text name)) [
  | none ↦ none
  | some (project_id, display_name, vm_id) ↦
      some (string project_id, string display_name, string vm_id)
]

module _ {Xml World : Type 0} (libvirt : Libvirt Xml World) where
  unfoldable pub extract_disk_path : Xml → Option String
  extract_disk_path xml = path_of (libvirt.disk_sources xml)

  unfoldable pub get_disk_size_gb : String → World → ℕ
  get_disk_size_gb path world = size_of (libvirt.virtual_size path world)

  unfoldable pub list_domains : World → List (ListedDomain Xml)
  list_domains world = listed (libvirt.list_all_domains world)

  -- The size of a domain's disk, 0 without a path.
  unfoldable pub disk_gb_of : Xml → World → ℕ
  unfolding extract_disk_path get_disk_size_gb
  disk_gb_of xml world = elim (extract_disk_path xml) [
    | none ↦ 0
    | some path ↦ get_disk_size_gb path world
  ]

  abbrev orphan : ListedDomain Xml → World → String × String × String → OrphanedBoxerDomain
  orphan d world (project_id, display_name, vm_id) = record {
    libvirt_name = d.name;
    parsed_project_id = project_id;
    parsed_display_name = display_name;
    parsed_vm_id = vm_id;
    disk_path = extract_disk_path d.xml;
    disk_gb = disk_gb_of d.xml world;
    is_active = d.is_active;
  }

  abbrev foreign : ListedDomain Xml → World → ForeignDomain
  foreign d world = record {
    libvirt_name = d.name;
    disk_path = extract_disk_path d.xml;
    disk_gb = disk_gb_of d.xml world;
    is_active = d.is_active;
  }

  -- The body of the loop over the domains puts a domain before those that come after it.
  abbrev add_domain :
      ListedDomain Xml
      → World
      → Option (String × String × String)
      → ReconcileReport
      → ReconcileReport
  add_domain d world none report = record report {
    foreign_vms = foreign d world ∷ report.foreign_vms;
  }
  add_domain d world (some parsed) report = record report {
    orphaned_boxer = orphan d world parsed ∷ report.orphaned_boxer;
  }

  unfoldable pub report_domains :
      List VmRecord → World → List (ListedDomain Xml) → ReconcileReport → ReconcileReport
  report_domains vms world [] report = report
  report_domains vms world (d ∷ domains) report =
      let rest = report_domains vms world domains report in
      if is_tracked vms d.name then rest else add_domain d world (parse_name d.name) rest

  unfoldable pub ghosts : List (ListedDomain Xml) → List VmRecord → List GhostRecord
  ghosts domains [] = []
  ghosts domains (v ∷ vms) =
      let rest = ghosts domains vms in
      if is_listed domains v.libvirt_name
      then rest
      else record {
        vm_id = v.id;
        libvirt_name = v.libvirt_name;
        project_id = v.project_id;
        display_name = v.display_name;
      }
        ∷ rest

  unfoldable pub build_reconcile_report :
      {Request : Type 0} → Database Request → World → ReconcileReport
  unfolding list_domains report_domains ghosts
  build_reconcile_report db world =
      let domains = list_domains world in
      let vms = list_vms none db in
      report_domains vms world domains
        (record { orphaned_boxer = []; foreign_vms = []; ghost_records = ghosts domains vms })
