-- ===== src/Images/Hex.antt =====
-- What boxerd/image_catalog.py takes from a manifest as a digest.
use boxer.Base.{
  not, ℕ, suc, ◌+◌, String, Bool, true, false, ◌&&◌, ◌||◌, ◌≡◌, refl, subst, ap, ◌∙◌, ◌⊎◌, inl, inr,
  eq_iff, Option, none, some, List, [], ◌∷◌, length, eqb, ◌==◌, Bool-cases, Option-cases, arith,
  if◌then◌else◌,
}
use boxer.Ipc.{Result, ok}
use boxer.Ipc.Yields.{Yields, Yields-ok, Yields-err, Yields-bind}
use boxer.Names.{starts_with, Text, text, text_eq, strip_prefix}
use boxer.Names.Strings.{string}
use boxer.Names.Patterns.{between}
use boxer.Json.{lstrip, rstrip}
use boxer.Images.Lines.{
  nonempty, words, splitlines, path_name, is_lower_hex, is_hex, all_of, ascii_lower,
}
use boxer.Images.Manifest.{
  validate_hash_algorithm, hash_length, FedoraMatch, in_parens, match_digest, match_equals,
  match_parens, fedora_match, checked, of_fedora, of_words, of_match, of_line, find_digest,
  parse_checksum_manifest,
}

-- Lower-case hexadecimal, of the algorithm's length.
abbrev pub IsDigest : String → Text → Type 0
IsDigest algorithm s = (length s ≡ hash_length algorithm) × (all_of is_lower_hex s ≡ true)

abbrev Every : {A : Type 0} → (A → Type 0) → Option A → Type 0
Every P none = Unit
Every P (some a) = P a

module _ {A : Type 0} (P : A → Type 0) where
  Every-if : (b : Bool) (o : Option A) → (b ≡ true → Every P o) → Every P (if b then o else none)
  Every-if true o h = h refl
  Every-if false o h = tt

  Every-unless : (b : Bool) (o : Option A) → Every P o → Every P (if b then none else o)
  Every-unless true o h = tt
  Every-unless false o h = h

eqb→eq : (a b : ℕ) → eqb a b ≡ true → a ≡ b
eqb→eq a b h = ground arith

length-ascii_lower : (s : Text) → length (ascii_lower s) ≡ length s
length-ascii_lower [] = refl
length-ascii_lower (c ∷ s) = ap suc (length-ascii_lower s)

is_lower_hex-lower :
    (c : ℕ) → is_hex c ≡ true → is_lower_hex (if between b'A' b'Z' c then 32 + c else c) ≡ true
is_lower_hex-lower c h = ground arith

pub both : (a b : Bool) → a && b ≡ true → (a ≡ true) × (b ≡ true)
both true b h = (refl, h)
both false b h = (h, cc)

joined : (a b : Bool) → a ≡ true → b ≡ true → a && b ≡ true
joined true b ha hb = hb
joined false b ha hb = ha

all_of-ascii_lower :
    (s : Text) → all_of is_hex s ≡ true → all_of is_lower_hex (ascii_lower s) ≡ true
all_of-ascii_lower [] h = refl
all_of-ascii_lower (c ∷ s) h =
    let (first, rest) = both (is_hex c) _ h in
    joined _ _ (is_lower_hex-lower c first) (all_of-ascii_lower s rest)

-- What is of the length and hexadecimal is a digest in lower case.
lowered :
    (algorithm : String) (s : Text)
    → all_of is_hex s ≡ true
    → eqb (length s) (hash_length algorithm) ≡ true
    → IsDigest algorithm (ascii_lower s)
lowered algorithm s hex size = (length-ascii_lower s ∙ eqb→eq _ _ size, all_of-ascii_lower s hex)

hex_of_lower : (c : ℕ) → is_lower_hex c ≡ true → is_hex c ≡ true
hex_of_lower c h = ground arith

all_hex_of_lower : (s : Text) → all_of is_lower_hex s ≡ true → all_of is_hex s ≡ true
all_hex_of_lower [] h = refl
all_hex_of_lower (c ∷ s) h =
    let (first, rest) = both (is_lower_hex c) _ h in
    joined _ _ (hex_of_lower c first) (all_hex_of_lower s rest)

checked_hex :
    (algorithm : String) (s : Text) → Every (IsDigest algorithm) (checked is_hex algorithm s)
checked_hex algorithm s = Every-if (IsDigest algorithm) _ (some (ascii_lower s)) λ h.
    let (size, hex) = both (eqb (length s) (hash_length algorithm)) _ h in
    lowered algorithm s (both (nonempty s) _ hex).1 size

checked_lower :
    (algorithm : String) (s : Text) → Every (IsDigest algorithm) (checked is_lower_hex algorithm s)
checked_lower algorithm s = Every-if (IsDigest algorithm) _ (some (ascii_lower s)) λ h.
    let (size, hex) = both (eqb (length s) (hash_length algorithm)) _ h in
    lowered algorithm s (all_hex_of_lower s (both (nonempty s) _ hex).1) size

abbrev HasHex : FedoraMatch → Type 0
HasHex m = all_of is_hex m.digest ≡ true

match_digest-HasHex :
    (algorithm : String) (filename : Text) (s : Option Text)
    → Every HasHex (match_digest algorithm filename s)
match_digest-HasHex algorithm filename none = tt
match_digest-HasHex algorithm filename (some s) =
    Every-if HasHex _
      (some (record { algorithm = algorithm; filename = filename; digest = lstrip s }))
      λ h. (both (nonempty (lstrip s)) _ h).1

match_equals-HasHex :
    (algorithm : String) (o : Option (Text × Text)) → Every HasHex (match_equals algorithm o)
match_equals-HasHex algorithm none = tt
match_equals-HasHex algorithm (some (filename, s)) =
    Every-if HasHex (nonempty filename) _
      λ _. match_digest-HasHex algorithm filename (strip_prefix (text "=") (lstrip s))

match_parens-HasHex :
    (algorithm : String) (o : Option Text) → Every HasHex (match_parens algorithm o)
match_parens-HasHex algorithm none = tt
match_parens-HasHex algorithm (some s) = match_equals-HasHex algorithm (in_parens s)

fedora_match-HasHex : (line : Text) → Every HasHex (fedora_match line)
unfolding fedora_match
fedora_match-HasHex line = elim (Option-cases (strip_prefix (text "SHA256") line)) [
  | inr (s, e) ↦ rw (e) (match_parens-HasHex "sha256" (strip_prefix (text "(") (lstrip s)))
  | inl e ↦ elim (Option-cases (strip_prefix (text "SHA512") line)) [
    | inr (s, e') ↦ rw (e, e') (match_parens-HasHex "sha512" (strip_prefix (text "(") (lstrip s)))
    | inl e' ↦ rw (e, e') tt
  ]
]

of_fedora-IsDigest :
    (algorithm : String) (wanted : Text) (m : FedoraMatch)
    → HasHex m
    → Every (IsDigest algorithm) (of_fedora algorithm wanted m)
unfolding path_name
of_fedora-IsDigest algorithm wanted m hex =
    Every-if (IsDigest algorithm) (m.algorithm == algorithm) _ λ _.
      Every-if (IsDigest algorithm) (text_eq (path_name (rstrip (lstrip m.filename))) wanted)
        (if eqb (length m.digest) (hash_length algorithm)
          then some (ascii_lower m.digest)
          else none)
        λ _. Every-if (IsDigest algorithm) _ (some _) (lowered algorithm m.digest hex)

of_words-IsDigest :
    (algorithm : String) (wanted : Text) (ws : List Text)
    → Every (IsDigest algorithm) (of_words algorithm wanted ws)
of_words-IsDigest algorithm wanted [] = tt
of_words-IsDigest algorithm wanted (digest ∷ []) = checked_hex algorithm digest
of_words-IsDigest algorithm wanted (digest ∷ word ∷ more) =
    Every-if (IsDigest algorithm) _ _ λ _. checked_lower algorithm (ascii_lower digest)

of_match-IsDigest :
    (algorithm : String) (wanted : Text) (ws : List Text) (o : Option FedoraMatch)
    → Every HasHex o
    → Every (IsDigest algorithm) (of_match algorithm wanted ws o)
of_match-IsDigest algorithm wanted ws none h = of_words-IsDigest algorithm wanted ws
of_match-IsDigest algorithm wanted ws (some m) h = of_fedora-IsDigest algorithm wanted m h

of_line-IsDigest :
    (algorithm : String) (wanted line : Text)
    → Every (IsDigest algorithm) (of_line algorithm wanted line)
unfolding of_line
of_line-IsDigest algorithm wanted line =
    let matched = of_match algorithm wanted (words line) (fedora_match line) in
    Every-unless (IsDigest algorithm) (not (nonempty line))
      (if starts_with (text "#") line then none else matched)
      (Every-unless (IsDigest algorithm) (starts_with (text "#") line) matched (
        of_match-IsDigest algorithm wanted (words line) (fedora_match line)
          (fedora_match-HasHex line)))

find_digest-step :
    (algorithm : String) (o : Option Text) (rest : Result Text)
    → Every (IsDigest algorithm) o
    → Yields (IsDigest algorithm) rest
    → Yields (IsDigest algorithm) (elim o [ some digest ↦ ok digest | none ↦ rest ])
find_digest-step algorithm none rest h k = k
find_digest-step algorithm (some digest) rest h k = Yields-ok digest h

find_digest-IsDigest :
    (algorithm : String) (wanted : Text) (lines : List Text)
    → Yields (IsDigest algorithm) (find_digest algorithm wanted lines)
find_digest-IsDigest algorithm wanted [] = Yields-err _
find_digest-IsDigest algorithm wanted (line ∷ lines) =
    find_digest-step algorithm (of_line algorithm wanted (rstrip (lstrip line))) _
      (of_line-IsDigest algorithm wanted _) (find_digest-IsDigest algorithm wanted lines)

abbrev IsSupported : String → Type 0
IsSupported algorithm = (algorithm ≡ "sha256") ⊎ (algorithm ≡ "sha512")

other : (a b : Bool) → a ≡ false → a || b ≡ true → b ≡ true
other true b h k = absurd (ground arith)
other false b h k = k

supported : (a : String) → a == "sha256" || a == "sha512" ≡ true → IsSupported a
supported a h = elim (Bool-cases (a == "sha256")) [
  | inl e ↦ inl ((eq_iff a "sha256").0 e)
  | inr e ↦ inr ((eq_iff a "sha512").0 (other _ _ e h))
]

validated :
    (lower : String → String) (algorithm : String)
    → Yields (λ a. (a ≡ lower algorithm) × IsSupported a) (validate_hash_algorithm lower algorithm)
unfolding validate_hash_algorithm
validated lower algorithm =
    elim (Bool-cases (lower algorithm == "sha256" || lower algorithm == "sha512")) [
      | inl e ↦ rw (e) (Yields-ok (lower algorithm) (refl, supported _ e))
      | inr e ↦ rw (e) (Yields-err _)
    ]

-- A digest as the text of a manifest gives it.
abbrev pub IsDigestText : String → String → Type 0
IsDigestText algorithm digest =
    IsSupported algorithm × ((s : Text) × (digest ≡ string s) × IsDigest algorithm s)

-- Whatever the text of a manifest, what is taken from it as a digest, by an algorithm that the
-- source accepts, is in lower-case hexadecimal and has the algorithm's length.
pub parse_checksum_manifest-IsDigest :
    (lower : String → String) (manifest : Text) (filename algorithm digest : String)
    → parse_checksum_manifest lower manifest filename algorithm ≡ ok digest
    → IsDigestText (lower algorithm) digest
unfolding parse_checksum_manifest
parse_checksum_manifest-IsDigest lower manifest filename algorithm = Yields.result (
    Yields-bind (validate_hash_algorithm lower algorithm) _ (validated lower algorithm)
      λ a (e, known).
        Yields-bind (find_digest a (path_name (text filename)) (splitlines manifest)) _
          (find_digest-IsDigest a (path_name (text filename)) (splitlines manifest))
          λ s hex.
            Yields-ok (string s) (subst (λ b. IsDigestText b (string s)) e (known, (s, refl, hex))))
