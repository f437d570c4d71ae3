-- ===== src/Images/Lines.antt =====
-- The operations of Python's texts that the readers of a manifest use.
use boxer.Base.{
  ℕ, ◌+◌, Bool, true, false, not, ◌&&◌, ◌||◌, List, [], ◌∷◌, eqb, select, if◌then◌else◌,
}
use boxer.Names.{Text, text, text_eq, starts_with}
use boxer.Names.Patterns.{between, newline, is_digit}
use boxer.Json.{is_space}

abbrev pub nonempty : Text → Bool
nonempty [] = false
nonempty (c ∷ s) = true

-- The texts between the characters of a class: there is always a first.
abbrev pub pieces_from : (ℕ → Bool) → Text → Text × List Text
pieces_from p [] = ([], [])
pieces_from p (c ∷ s) = let (w, ws) = pieces_from p s in if p c then ([], w ∷ ws) else (c ∷ w, ws)

abbrev pub pieces : (ℕ → Bool) → Text → List Text
pieces p s = let (w, ws) = pieces_from p s in w ∷ ws

-- s.split()
abbrev pub words : Text → List Text
words s = select nonempty (pieces is_space s)

-- Where `str.splitlines` ends a line, besides "\r\n".
abbrev pub is_line_break : ℕ → Bool
is_line_break c = between 10 13 c || between 28 30 c || eqb c 133 || between 8232 8233 c

-- "\r\n" is one end of a line.
abbrev pub join_crlf : Text → Text
join_crlf [] = []
join_crlf (c ∷ s) =
    let rest = join_crlf s in if eqb c 13 && starts_with (newline ∷ []) s then rest else c ∷ rest

-- No line stands behind the last end of a line.
abbrev pub drop_last_empty : List Text → List Text
drop_last_empty [] = []
drop_last_empty (w ∷ []) = if nonempty w then w ∷ [] else []
drop_last_empty (w ∷ v ∷ ws) = w ∷ drop_last_empty (v ∷ ws)

-- s.splitlines()
unfoldable pub splitlines : Text → List Text
splitlines s = drop_last_empty (pieces is_line_break (join_crlf s))

-- p in s
abbrev pub contains_text : Text → Text → Bool
contains_text p [] = starts_with p []
contains_text p (c ∷ s) =
    let rest = contains_text p s in if starts_with p (c ∷ s) then true else rest

-- s.lstrip("*")
abbrev pub lstrip_star : Text → Text
lstrip_star [] = []
lstrip_star (c ∷ s) = let rest = lstrip_star s in if eqb c b'*' then rest else c ∷ s

abbrev pub last_or : Text → List Text → Text
last_or s [] = s
last_or s (w ∷ ws) = last_or w ws

abbrev is_part : Text → Bool
is_part w = nonempty w && not (text_eq w (text "."))

-- Path(s).name: "." and an empty component are no part of a path.
unfoldable pub path_name : Text → Text
path_name s = last_or [] (select is_part (pieces (eqb b'/') s))

abbrev pub is_lower_hex : ℕ → Bool
is_lower_hex c = is_digit c || between b'a' b'f' c

abbrev pub is_hex : ℕ → Bool
is_hex c = is_lower_hex c || between b'A' b'F' c

-- [...]+ as a whole
abbrev pub all_of : (ℕ → Bool) → Text → Bool
all_of p [] = true
all_of p (c ∷ s) = p c && all_of p s

abbrev pub is_word_of : (ℕ → Bool) → Text → Bool
is_word_of p s = nonempty s && all_of p s

-- s.lower() of the letters A to Z: no other character becomes a hexadecimal digit.
abbrev pub ascii_lower : Text → Text
ascii_lower [] = []
ascii_lower (c ∷ s) = (if between b'A' b'Z' c then 32 + c else c) ∷ ascii_lower s
