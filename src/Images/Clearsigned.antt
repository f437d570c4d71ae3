-- ===== src/Images/Clearsigned.antt =====
-- `extract_clearsigned_payload` of boxerd/signature.py: the signed lines of a PGP message.
use boxer.Base.{Bool, not, ◌||◌, Option, none, some, List, [], ◌∷◌, ◌++◌, if◌then◌else◌}
use boxer.Ipc.{Result, ok, err, invalid, exception}
use boxer.Names.{Text, text, text_eq, dash, strip_prefix}
use boxer.Names.Patterns.{newline}
use boxer.Json.{lstrip, rstrip}
use boxer.Images.Lines.{nonempty, splitlines, contains_text}

abbrev pub clearsign_header : Text
clearsign_header = text "-----BEGIN PGP SIGNED MESSAGE-----"

abbrev pub clearsign_sig : Text
clearsign_sig = text "-----BEGIN PGP SIGNATURE-----"

abbrev pub is_marker : Text → Text → Bool
is_marker marker line = text_eq (rstrip (lstrip line)) marker

-- The lines behind the first header that has a line of its own.
abbrev pub behind_header : List Text → Option (List Text)
behind_header [] = none
behind_header (line ∷ lines) =
    let rest = behind_header lines in if is_marker clearsign_header line then some lines else rest

-- The lines behind the first empty one.
abbrev pub behind_blank : List Text → List Text
behind_blank [] = []
behind_blank (line ∷ lines) = let rest = behind_blank lines in if nonempty line then rest else lines

abbrev pub unescape : Text → Text
unescape line = elim (strip_prefix (text "- ") line) [
  | some rest ↦ rest
  | none ↦ if text_eq line (dash ∷ []) then [] else line
]

abbrev pub payload : List Text → List Text
payload [] = []
payload (line ∷ lines) =
    let rest = payload lines in if is_marker clearsign_sig line then [] else unescape line ∷ rest

-- "\n".join(lines)
abbrev pub join : List Text → Text
join [] = []
join (line ∷ []) = line
join (line ∷ next ∷ lines) = line ++ (newline ∷ join (next ∷ lines))

-- `next` without a default raises when no line is the header; a coroutine turns that into the other.
abbrev pub body : Option (List Text) → Result Text
body none = err (exception "RuntimeError")
body (some lines) = ok (join (payload (behind_blank lines)) ++ (newline ∷ []))

unfoldable pub extract_clearsigned_payload : Text → Result Text
unfolding splitlines
extract_clearsigned_payload s =
    if not (contains_text clearsign_header s) || not (contains_text clearsign_sig s)
    then invalid
    else body (behind_header (splitlines s))
