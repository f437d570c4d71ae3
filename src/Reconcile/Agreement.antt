-- ===== src/Reconcile/Agreement.antt =====
-- What the report of boxerd/reconcile.py lists, stated without its loops.
use boxer.Base.{String, Bool, not, ◌&&◌, List, map, is_some}
use boxer.Types.{VmRecord}
use boxer.Reconcile.{Libvirt, ListedDomain, is_tracked, parse_name}

module _ {Xml World : Type 0} (libvirt : Libvirt Xml World) where
  abbrev pub is_orphan : List VmRecord → ListedDomain Xml → Bool
  is_orphan vms d = not (is_tracked vms d.name) && is_some (parse_name d.name)

  abbrev pub is_foreign : List VmRecord → ListedDomain Xml → Bool
  is_foreign vms d = not (is_tracked vms d.name) && not (is_some (parse_name d.name))

  abbrev names : List (ListedDomain Xml) → List String
  names ds = map (λ d. d.name) ds
