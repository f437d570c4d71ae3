-- ===== src/Daemon/Params/Bounds.antt =====
-- The bounds of the lists and numbers that boxerd/daemon.py accepts.
use boxer.Base.{
  ℕ, ◌≤◌, ℤ, pos, negsuc, String, false, ◌≡◌, Option, none, some, List, [], ◌∷◌, length, All, ltb,
  ltb_false→le, ◌==◌, arith, Bool-cases, inl, inr,
}
use boxer.Ipc.{ok}
use boxer.Ipc.Yields.{Yields, Yields-ok, Yields-err, Yields-bind, Yields-refuse, Yields-any}
use boxer.Names.{text}
use boxer.Json.{Json, null, boolean, number, str, array, object, items, int, strip}
use boxer.Daemon.Params.{
  entry_of, add_entry, string_items, string_list, bounded_int, within, caught, given,
}

-- A text that is not empty and at most so long.
pub record IsEntry (max_len : ℕ) (s : String) : Type 0 where
  pub some_text : (s == "") ≡ false
  pub short : length (text s) ≤ max_len

abbrev IsOptional : ℕ → Option String → Type 0
IsOptional max_len none = Unit
IsOptional max_len (some s) = IsEntry max_len s

text_entry-Yields :
    (max_len : ℕ) (s : String) → Yields (IsOptional max_len) (entry_of max_len (str s))
text_entry-Yields max_len s = elim (Bool-cases (strip s == "")) [
  | inl e ↦ rw e (Yields-ok none tt)
  | inr e ↦ rw e (elim (Bool-cases (ltb max_len (length (text (strip s))))) [
    | inl l ↦ rw l (Yields-err _)
    | inr l ↦
        rw l
          (Yields-ok (some (strip s)) (record { some_text = e; short = ltb_false→le max_len _ l }))
  ])
]

entry_of-Yields :
    (max_len : ℕ) (value : Json) → Yields (IsOptional max_len) (entry_of max_len value)
entry_of-Yields max_len (str s) = text_entry-Yields max_len s
entry_of-Yields max_len null = Yields-err _
entry_of-Yields max_len (boolean _) = Yields-err _
entry_of-Yields max_len (number _) = Yields-err _
entry_of-Yields max_len (array _) = Yields-err _
entry_of-Yields max_len (object _) = Yields-err _

add_entry-All :
    (max_len : ℕ) (entry : Option String) (rest : List String)
    → IsOptional max_len entry
    → All (IsEntry max_len) rest
    → All (IsEntry max_len) (add_entry entry rest)
add_entry-All max_len none rest e r = r
add_entry-All max_len (some s) rest e r = (e, r)

string_items-Yields :
    (max_len : ℕ) (values : List Json)
    → Yields (All (IsEntry max_len)) (string_items max_len values)
unfolding string_items
string_items-Yields max_len [] = Yields-ok [] tt
string_items-Yields max_len (value ∷ values) =
    Yields-bind _ _ (entry_of-Yields max_len value) λ entry e.
      Yields-bind _ _ (string_items-Yields max_len values)
        λ rest r. Yields-ok _ (add_entry-All max_len entry rest e r)

-- At most so many texts, each as above.
pub record IsShortList (max_items max_len : ℕ) (entries : List String) : Type 0 where
  pub count : length entries ≤ max_items
  pub each : All (IsEntry max_len) entries

pub string_list-Yields :
    (max_items max_len : ℕ) (value : Option Json)
    → Yields (IsShortList max_items max_len) (string_list max_items max_len value)
unfolding string_list
string_list-Yields max_items max_len none = Yields-ok [] (record { count = omega arith; each = tt })
string_list-Yields max_items max_len (some null) =
    Yields-ok [] (record { count = omega arith; each = tt })
string_list-Yields max_items max_len (some (array values)) =
    Yields-bind _ _ (string_items-Yields max_len (items values)) λ entries each.
      Yields-refuse _ _ _ λ few.
        Yields-ok entries
          (record { count = ltb_false→le max_items (length entries) few; each = each })
string_list-Yields max_items max_len (some (boolean _)) = Yields-err _
string_list-Yields max_items max_len (some (number _)) = Yields-err _
string_list-Yields max_items max_len (some (str _)) = Yields-err _
string_list-Yields max_items max_len (some (object _)) = Yields-err _

within-Yields : (lo hi : ℕ) (z : ℤ) → Yields (λ n. (lo ≤ n) × (n ≤ hi)) (within lo hi z)
within-Yields lo hi (pos n) = record { result = λ m h. ground arith }
within-Yields lo hi (negsuc n) = Yields-err _

-- A number that is accepted lies within the bounds of the call, whether it is the caller's, as a
-- number, a truth value or a text, or the default.
pub bounded_int-bounds :
    (read : String → Option ℤ) (raw : Option Json) (default lo hi n : ℕ)
    → bounded_int read raw default lo hi ≡ ok n
    → (lo ≤ n) × (n ≤ hi)
unfolding bounded_int
bounded_int-bounds read raw default lo hi n accepted =
    (Yields-bind _ _ (Yields-any (caught (int read (given default raw))))
        λ z _. within-Yields lo hi z).result
      n accepted
