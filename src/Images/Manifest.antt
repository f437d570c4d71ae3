-- ===== src/Images/Manifest.antt =====
-- `_parse_checksum_manifest` of boxerd/image_catalog.py: the digest that a manifest gives of a file.
use boxer.Base.{
  ℕ, String, Bool, not, ◌&&◌, ◌||◌, Option, none, some, List, [], ◌∷◌, length, eqb, ◌==◌,
  if◌then◌else◌,
}
use boxer.Ipc.{Result, ok, err, invalid, ipc_error, invalid_params, ◌>>=◌}
use boxer.Names.{Text, text, text_eq, strip_prefix, starts_with}
use boxer.Names.Strings.{string}
use boxer.Json.{lstrip, rstrip}
use boxer.Images.Lines.{
  nonempty, words, splitlines, lstrip_star, last_or, path_name, is_lower_hex, is_hex, is_word_of,
  ascii_lower,
}

-- `_validate_hash_algorithm`
unfoldable pub validate_hash_algorithm : (String → String) → String → Result String
validate_hash_algorithm lower algorithm =
    if lower algorithm == "sha256" || lower algorithm == "sha512"
    then ok (lower algorithm)
    else err (ipc_error invalid_params)

-- `_HASH_LENGTHS`, of the algorithms that pass
abbrev pub hash_length : String → ℕ
hash_length algorithm = if algorithm == "sha256" then 64 else 128

-- A match of `_FEDORA_STYLE_RE`; the algorithm is in lower case.
pub record FedoraMatch : Type 0 where
  pub algorithm : String
  pub filename : Text
  pub digest : Text

-- The text before the first ")", which is not empty, and the one behind.
abbrev pub in_parens : Text → Option (Text × Text)
in_parens [] = none
in_parens (c ∷ s) =
    let rest = in_parens s in
    if eqb c b')' then some ([], s) else elim rest [ none ↦ none | some (a, b) ↦ some (c ∷ a, b) ]

abbrev pub match_digest : String → Text → Option Text → Option FedoraMatch
match_digest algorithm filename none = none
match_digest algorithm filename (some s) =
    if is_word_of is_hex (lstrip s)
    then some (record { algorithm = algorithm; filename = filename; digest = lstrip s })
    else none

abbrev pub match_equals : String → Option (Text × Text) → Option FedoraMatch
match_equals algorithm none = none
match_equals algorithm (some (filename, s)) =
    if nonempty filename
    then match_digest algorithm filename (strip_prefix (text "=") (lstrip s))
    else none

abbrev pub match_parens : String → Option Text → Option FedoraMatch
match_parens algorithm none = none
match_parens algorithm (some s) = match_equals algorithm (in_parens s)

abbrev pub match_named : String → Text → Option FedoraMatch
match_named algorithm s = match_parens algorithm (strip_prefix (text "(") (lstrip s))

-- `_FEDORA_STYLE_RE.match(line)`, of a line without space around it
unfoldable pub fedora_match : Text → Option FedoraMatch
fedora_match line = elim (strip_prefix (text "SHA256") line) [
  | some s ↦ match_named "sha256" s
  | none ↦ elim (strip_prefix (text "SHA512") line) [
    | some s ↦ match_named "sha512" s
    | none ↦ none
  ]
]

-- What a line says is a digest is one if it is of the algorithm's length, in hexadecimal.
abbrev pub checked : (ℕ → Bool) → String → Text → Option Text
checked digits algorithm digest =
    if eqb (length digest) (hash_length algorithm) && is_word_of digits digest
    then some (ascii_lower digest)
    else none

abbrev pub of_fedora : String → Text → FedoraMatch → Option Text
of_fedora algorithm wanted m =
    if m.algorithm == algorithm
    then if text_eq (path_name (rstrip (lstrip m.filename))) wanted
      then if eqb (length m.digest) (hash_length algorithm)
        then some (ascii_lower m.digest)
        else none
      else none
    else none

-- The words of a line: a digest alone is taken whatever the file.
abbrev pub of_words : String → Text → List Text → Option Text
of_words algorithm wanted [] = none
of_words algorithm wanted (digest ∷ []) = checked is_hex algorithm digest
of_words algorithm wanted (digest ∷ word ∷ more) =
    if text_eq (path_name (lstrip_star (last_or word more))) wanted
    then checked is_lower_hex algorithm (ascii_lower digest)
    else none

abbrev pub of_match : String → Text → List Text → Option FedoraMatch → Option Text
of_match algorithm wanted ws none = of_words algorithm wanted ws
of_match algorithm wanted ws (some m) = of_fedora algorithm wanted m

unfoldable pub of_line : String → Text → Text → Option Text
unfolding fedora_match path_name
of_line algorithm wanted line =
    if not (nonempty line)
    then none
    else if starts_with (text "#") line
    then none
    else of_match algorithm wanted (words line) (fedora_match line)

-- The digest of the first line that has one.
abbrev pub find_digest : String → Text → List Text → Result Text
find_digest algorithm wanted [] = invalid
find_digest algorithm wanted (line ∷ lines) =
    let rest = find_digest algorithm wanted lines in
    elim (of_line algorithm wanted (rstrip (lstrip line))) [ some digest ↦ ok digest | none ↦ rest ]

unfoldable pub parse_checksum_manifest : (String → String) → Text → String → String → Result String
unfolding validate_hash_algorithm of_line splitlines path_name
parse_checksum_manifest lower manifest filename algorithm = do
  algorithm ← validate_hash_algorithm lower algorithm
  digest ← find_digest algorithm (path_name (text filename)) (splitlines manifest)
  ok (string digest)
