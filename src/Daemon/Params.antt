-- ===== src/Daemon/Params.antt =====
-- How boxerd/daemon.py reads the parameters of a request: lists of texts, numbers, paths, and
-- conditions to wait for.
pub mod Bounds
use Prim.Native.String.{◌++◌ as concat}
use boxer.Base.{
  ℕ, ◌+◌, ◌*◌, ℤ, pos, negsuc, String, Bool, true, false, not, ◌&&◌, ◌||◌, Option, none, some, List,
  [], ◌∷◌, ◌++◌, length, any, select, leb, ltb, eqb, ◌==◌, if◌then◌else◌,
}
use boxer.Ipc.{
  Error, Result, ok, err, ipc_error, exception, invalid_params, require, refuse, ◌>>=◌, ◌>>◌,
  invalid,
}
use boxer.Names.{text, starts_with}
use boxer.Names.Patterns.{between, is_letter, is_digit, matches_rest, matches_class}
use boxer.Profiles.{
  Bootstrap, contains, profiles, max_profiles, resolve_profiles, dedupe_keep_order,
}
use boxer.Json.{
  Json, integer, null, boolean, number, str, array, object, Fields, no_fields, items, get, holds,
  int, strip, utf8_bytes,
}

-- params.get(key, fallback.get(other))
abbrev pub field_or : String → Fields → String → Fields → Option Json
field_or key params other fallback = elim (get key params) [
  | none ↦ get other fallback
  | some value ↦ some value
]

-- One entry of a list of texts; a blank one is dropped.
abbrev pub entry_of : ℕ → Json → Result (Option String)
entry_of max_len (str s) =
    if strip s == ""
    then ok none
    else if ltb max_len (length (text (strip s)))
    then invalid
    else ok (some (strip s))
entry_of max_len _ = invalid

abbrev pub add_entry : Option String → List String → List String
add_entry none rest = rest
add_entry (some s) rest = s ∷ rest

unfoldable pub string_items : ℕ → List Json → Result (List String)
unfolding strip
string_items max_len [] = ok []
string_items max_len (value ∷ values) = do
  entry ← entry_of max_len value
  rest ← string_items max_len values
  ok (add_entry entry rest)

unfoldable pub string_list : ℕ → ℕ → Option Json → Result (List String)
unfolding string_items
string_list max_items max_len none = ok []
string_list max_items max_len (some null) = ok []
string_list max_items max_len (some (array values)) = do
  result ← string_items max_len (items values)
  refuse (ltb max_items (length result)) (ipc_error invalid_params)
  ok result
string_list max_items max_len (some _) = invalid

-- `except (TypeError, ValueError)`; an OverflowError comes out.
abbrev pub caught : Result ℤ → Result ℤ
caught (ok z) = ok z
caught (err (ipc_error code)) = err (ipc_error code)
caught (err (exception name)) =
    if name == "TypeError" || name == "ValueError" then invalid else err (exception name)

abbrev pub within : ℕ → ℕ → ℤ → Result ℕ
within lo hi (pos n) = if leb lo n && leb n hi then ok n else invalid
within lo hi (negsuc n) = invalid

-- raw if raw is not None else default
abbrev pub given : ℕ → Option Json → Json
given default none = number (integer (pos default))
given default (some null) = number (integer (pos default))
given default (some value) = value

-- The bounds of every call are natural numbers, and so is what lies between them.
unfoldable pub bounded_int : (String → Option ℤ) → Option Json → ℕ → ℕ → ℕ → Result ℕ
bounded_int read raw default lo hi = do
  value ← caught (int read (given default raw))
  within lo hi value

unfoldable pub guest_abs_path : Option Json → Result String
guest_abs_path (some (str raw)) =
    if starts_with (text "/") (text raw)
      && leb (length (text raw)) 4096
      && not (any (λ c. eqb c 0) (text raw))
    then ok raw
    else invalid
guest_abs_path _ = invalid

-- str(Path(path).expanduser().resolve()) is an argument.
unfoldable pub caller_project_path : (String → String) → Option Json → String → String
caller_project_path resolve (some (str path)) project_id =
    if strip path == "" then concat "unknown:" project_id else resolve path
caller_project_path resolve _ project_id = concat "unknown:" project_id

abbrev pub wait_conditions : List String
wait_conditions = "guest_agent" ∷ "ip" ∷ "ssh" ∷ "cloud_init" ∷ "package_install" ∷ []

-- `item not in _WAIT_CONDITIONS`: a list and an object have no hash.
abbrev condition : Json → Result String
condition (str s) = if contains s wait_conditions then ok s else invalid
condition (array _) = err (exception "TypeError")
condition (object _) = err (exception "TypeError")
condition _ = invalid

abbrev conditions_of : List Json → Result (List String)
conditions_of [] = ok []
conditions_of (value ∷ values) = do
  name ← condition value
  names ← conditions_of values
  ok (name ∷ names)

-- The names, each once.
unfoldable pub parse_wait_conditions : Option Json → Result (List String)
unfolding dedupe_keep_order
parse_wait_conditions none = ok []
parse_wait_conditions (some null) = ok []
parse_wait_conditions (some (array values)) = do
  names ← conditions_of (items values)
  ok (dedupe_keep_order names)
parse_wait_conditions (some _) = invalid
