-- ===== src/Json.antt =====
-- The values that Python's `json` reads, as the handlers of boxerd/daemon.py test and convert them.
-- A text is a string of the language, which has no lone surrogates; a field that is written twice is
-- read once, by the reader.
use boxer.Base.{
  ℕ, zero, ◌+◌, ℤ, pos, String, Bool, true, false, not, ◌||◌, Option, none, some, List, [], ◌∷◌,
  ltb, eqb, ◌==◌, if◌then◌else◌,
}
use boxer.Ipc.{Result, ok, err, exception}
use boxer.Names.{Text, text}
use boxer.Names.Patterns.{between}
use boxer.Names.Strings.{string}

-- A number with a fraction is kept by what `int` makes of it, and whether it is zero.
pub data Number : Type 0 where
  integer : ℤ → Number
  fraction : ℤ → Bool → Number
  nan infinite : Number

mutual
  pub data Json : Type 0 where
    null : Json
    boolean : Bool → Json
    number : Number → Json
    str : String → Json
    array : Items → Json
    object : Fields → Json

  pub data Items : Type 0 where
    no_items : Items
    item : Json → Items → Items

  pub data Fields : Type 0 where
    no_fields : Fields
    field : String → Json → Fields → Fields

abbrev pub items : Items → List Json
items no_items = []
items (item value rest) = value ∷ items rest

-- params.get(key)
abbrev pub get : String → Fields → Option Json
get key no_fields = none
get key (field name value rest) =
    let found = get key rest in if name == key then some value else found

abbrev nonzero : Number → Bool
nonzero (integer (pos zero)) = false
nonzero (integer _) = true
nonzero (fraction _ is_zero) = not is_zero
nonzero nan = true
nonzero infinite = true

-- bool(value)
abbrev pub holds : Json → Bool
holds null = false
holds (boolean b) = b
holds (number n) = nonzero n
holds (str s) = not (s == "")
holds (array no_items) = false
holds (array (item _ _)) = true
holds (object no_fields) = false
holds (object (field _ _ _)) = true

abbrev read_text : Option ℤ → Result ℤ
read_text none = err (exception "ValueError")
read_text (some z) = ok z

-- int(value); how Python reads a text as a number is an argument.
abbrev pub int : (String → Option ℤ) → Json → Result ℤ
int read null = err (exception "TypeError")
int read (boolean false) = ok (pos 0)
int read (boolean true) = ok (pos 1)
int read (number (integer z)) = ok z
int read (number (fraction z _)) = ok z
int read (number nan) = err (exception "ValueError")
int read (number infinite) = err (exception "OverflowError")
int read (str s) = read_text (read s)
int read (array _) = err (exception "TypeError")
int read (object _) = err (exception "TypeError")

-- c.isspace(), by Python's table of Unicode
abbrev pub is_space : ℕ → Bool
is_space c =
    between 9 13 c
    || between 28 32 c
    || eqb c 133
    || eqb c 160
    || eqb c 5760
    || between 8192 8202 c
    || between 8232 8233 c
    || eqb c 8239
    || eqb c 8287
    || eqb c 12288

abbrev pub lstrip : Text → Text
lstrip [] = []
lstrip (c ∷ s) = let rest = lstrip s in if is_space c then rest else c ∷ s

abbrev pub rstrip : Text → Text
rstrip [] = []
rstrip (c ∷ s) =
    let rest = rstrip s in elim rest [ [] ↦ if is_space c then [] else c ∷ [] | d ∷ t ↦ c ∷ d ∷ t ]

-- s.strip()
unfoldable pub strip : String → String
strip s = string (rstrip (lstrip (text s)))

-- len(s.encode("utf-8"))
abbrev pub utf8_bytes : Text → ℕ
utf8_bytes [] = 0
utf8_bytes (c ∷ s) =
    (if ltb c 128 then 1 else if ltb c 2048 then 2 else if ltb c 65536 then 3 else 4) + utf8_bytes s
