-- ===== src/Names.antt =====
-- The names of Boxer's libvirt domains: `_make_libvirt_name` of boxerd/daemon.py and
-- `parse_boxer_name` of boxerd/reconcile.py. A text is the list of its code points.
pub mod Strings
pub mod Patterns
pub mod Split
pub mod RoundTrip
use Prim.Native.Char.{code}
use boxer.Base.{
  ℕ, zero, suc, String, Bool, true, false, ◌&&◌, ◌||◌, Option, none, some, List, [], ◌∷◌, ◌++◌, map,
  length, take, leb, ltb, eqb, if◌then◌else◌,
}

abbrev pub Text : Type 0
Text = List ℕ

-- The code points of a literal. `String` has its own `[]` and `∷`.
abbrev pub text : String → Text
text String.[] = []
text (String.◌∷◌ c s) = code c ∷ text s

abbrev pub text_eq : Text → Text → Bool
text_eq [] [] = true
text_eq [] (d ∷ t) = false
text_eq (c ∷ s) [] = false
text_eq (c ∷ s) (d ∷ t) = eqb c d && text_eq s t

-- s[len(p):] if s.startswith(p)
abbrev pub strip_prefix : Text → Text → Option Text
strip_prefix [] s = some s
strip_prefix (c ∷ p) [] = none
strip_prefix (c ∷ p) (d ∷ s) = if eqb c d then strip_prefix p s else none

abbrev pub starts_with : Text → Text → Bool
starts_with [] s = true
starts_with (c ∷ p) [] = false
starts_with (c ∷ p) (d ∷ s) = if eqb c d then starts_with p s else false

abbrev pub dash : ℕ
dash = b'-'

-- s.split("--", maxsplit=1): the texts before and behind the first "--", if there is one.
unfoldable pub cut : Text → Option (Text × Text)
cut [] = none
cut (c ∷ []) = none
cut (c ∷ d ∷ s) =
    let rest = cut (d ∷ s) in
    if eqb c dash && eqb d dash
    then some ([], s)
    else elim rest [ none ↦ none | some (a, b) ↦ some (c ∷ a, b) ]

-- `c.isalnum()` is an argument: Python's tables of Unicode are not modelled.
unfoldable pub safe_name : (ℕ → Bool) → Text → Text
safe_name is_alnum display_name =
    take 30 (map (λ c. if is_alnum c || eqb c dash then c else dash) display_name)

abbrev pub boxer_prefix : Text
boxer_prefix = text "Boxer--"

unfoldable pub make_libvirt_name : (ℕ → Bool) → Text → Text → Text → Text
make_libvirt_name is_alnum project_id display_name vm_id =
    boxer_prefix
    ++ (project_id ++ (dash ∷ dash ∷ (safe_name is_alnum display_name ++ (dash ∷ dash ∷ vm_id))))

-- vm_id.startswith("vm_") and len(vm_id) >= 6
abbrev pub is_vm_id : Text → Bool
is_vm_id s = starts_with (text "vm_") s && leb 6 (length s)

abbrev parsed : Text → Option (Text × Text) → Option (Text × Text × Text)
parsed project_id none = none
parsed project_id (some (display_name, vm_id)) =
    if is_vm_id vm_id then some (project_id, display_name, vm_id) else none

-- rest.split("--", maxsplit=2): two cuts from the left.
abbrev parse_rest : Option (Text × Text) → Option (Text × Text × Text)
parse_rest none = none
parse_rest (some (project_id, rest)) = parsed project_id (cut rest)

unfoldable pub parse_boxer_name : Text → Option (Text × Text × Text)
parse_boxer_name name = elim (strip_prefix boxer_prefix name) [
  | none ↦ none
  | some rest ↦ parse_rest (cut rest)
]
