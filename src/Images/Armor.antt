-- ===== src/Images/Armor.antt =====
-- The messages that `extract_clearsigned_payload` of boxerd/signature.py reads, as PGP writes them.
use boxer.Base.{
  ℕ, Bool, true, false, not, ◌&&◌, ◌≡◌, refl, ap, ◌∙◌, inl, inr, none, List, [], ◌∷◌, ◌++◌, map,
  eqb, Bool-cases, arith, All, All-append, All-map, All-imp, if◌then◌else◌,
}
use boxer.Ipc.{ok}
use boxer.Names.{Text, text, dash, starts_with, strip_prefix}
use boxer.Names.Patterns.{newline}
use boxer.Json.{rstrip}
use boxer.Images.Hex.{both}
use boxer.Images.Lines.{
  all_of, nonempty, pieces_from, pieces, is_line_break, join_crlf, drop_last_empty, splitlines,
  contains_text,
}
use boxer.Images.Clearsigned.{
  clearsign_header, clearsign_sig, is_marker, behind_header, behind_blank, unescape, payload, join,
  body, extract_clearsigned_payload,
}

-- A line that starts with a dash is escaped.
abbrev pub escape : Text → Text
escape [] = []
escape (c ∷ s) = if eqb c dash then dash ∷ 32 ∷ c ∷ s else c ∷ s

abbrev pub unlines : List Text → Text
unlines [] = []
unlines (line ∷ lines) = line ++ (newline ∷ unlines lines)

-- The lines of a message: headers, a blank line, what is signed, and the signature.
abbrev pub armor : List Text → List Text → List Text → List Text
armor headers signed signature =
    (clearsign_header ∷ headers) ++ ([] ∷ (map escape signed ++ (clearsign_sig ∷ signature)))

abbrev pub IsLine : Text → Type 0
IsLine s = All (λ c. is_line_break c ≡ false) s

abbrev pub IsHeader : Text → Type 0
IsHeader s = IsLine s × (nonempty s ≡ true)

-- No end of a line inside, and not the signature's marker but for space around it.
abbrev pub IsSigned : Text → Type 0
IsSigned s = IsLine s × (is_marker clearsign_sig s ≡ false)

pieces_from-line :
    (w s : Text)
    → IsLine w
    → pieces_from is_line_break (w ++ (newline ∷ s)) ≡ (w, pieces is_line_break s)
pieces_from-line [] s h = refl
pieces_from-line (c ∷ w) s h = rw (h.0, pieces_from-line w s h.1) refl

pieces-unlines :
    (lines : List Text)
    → All IsLine lines
    → pieces is_line_break (unlines lines) ≡ lines ++ ([] ∷ [])
pieces-unlines [] h = refl
pieces-unlines (line ∷ lines) h =
    rw (pieces_from-line line (unlines lines) h.0, pieces-unlines lines h.1) refl

drop_last_empty-append : (lines : List Text) → drop_last_empty (lines ++ ([] ∷ [])) ≡ lines
drop_last_empty-append [] = refl
drop_last_empty-append (line ∷ []) = refl
drop_last_empty-append (line ∷ next ∷ lines) =
    ap (λ ls. line ∷ ls) (drop_last_empty-append (next ∷ lines))

not_return : (c : ℕ) (b : Bool) → is_line_break c ≡ false → eqb c 13 && b ≡ false
not_return c b h = ground arith

join_crlf-line :
    (w s : Text) → IsLine w → join_crlf (w ++ (newline ∷ s)) ≡ w ++ (newline ∷ join_crlf s)
join_crlf-line [] s h = refl
join_crlf-line (c ∷ w) s h =
    rw (not_return c (starts_with (newline ∷ []) (w ++ (newline ∷ s))) h.0, join_crlf-line w s h.1)
      refl

join_crlf-unlines :
    (lines : List Text) → All IsLine lines → join_crlf (unlines lines) ≡ unlines lines
join_crlf-unlines [] h = refl
join_crlf-unlines (line ∷ lines) h =
    join_crlf-line line (unlines lines) h.0
    ∙ ap (λ s. line ++ (newline ∷ s)) (join_crlf-unlines lines h.1)

splitlines-unlines : (lines : List Text) → All IsLine lines → splitlines (unlines lines) ≡ lines
unfolding splitlines
splitlines-unlines lines h =
    rw (join_crlf-unlines lines h, pieces-unlines lines h) (drop_last_empty-append lines)

eqb_refl : (n : ℕ) → eqb n n ≡ true
eqb_refl n = ground arith

eqb_sym : (a b : ℕ) → eqb a b ≡ false → eqb b a ≡ false
eqb_sym a b h = ground arith

starts_with-append : (p s : Text) → starts_with p (p ++ s) ≡ true
starts_with-append [] s = refl
starts_with-append (c ∷ p) s = rw (eqb_refl c) (starts_with-append p s)

contains_text-start : (p s : Text) → starts_with p s ≡ true → contains_text p s ≡ true
contains_text-start p [] h = h
contains_text-start p (c ∷ s) h = rw (h) refl

contains_text-behind : (p a s : Text) → contains_text p s ≡ true → contains_text p (a ++ s) ≡ true
contains_text-behind p [] s h = h
contains_text-behind p (c ∷ a) s h = elim (Bool-cases (starts_with p (c ∷ (a ++ s)))) [
  | inl e ↦ rw (e) refl
  | inr e ↦ rw (e) (contains_text-behind p a s h)
]

contains_text-line : (p : Text) (lines : List Text) → contains_text p (unlines (p ∷ lines)) ≡ true
contains_text-line p lines =
    contains_text-start p _ (starts_with-append p (newline ∷ unlines lines))

contains_text-lines :
    (p : Text) (before lines : List Text)
    → contains_text p (unlines lines) ≡ true
    → contains_text p (unlines (before ++ lines)) ≡ true
contains_text-lines p [] lines h = h
contains_text-lines p (line ∷ before) lines h =
    contains_text-behind p line _
      (contains_text-behind p (newline ∷ []) _ (contains_text-lines p before lines h))

behind_blank-append :
    (headers rest : List Text) → All IsHeader headers → behind_blank (headers ++ ([] ∷ rest)) ≡ rest
behind_blank-append [] rest h = refl
behind_blank-append (line ∷ headers) rest h = rw (h.0.1) (behind_blank-append headers rest h.1)

no_prefix : (c : ℕ) (s : Text) → eqb dash c ≡ false → strip_prefix (text "- ") (c ∷ s) ≡ none
no_prefix c s e = rw (e, strip_prefix) refl

unescape-plain :
    (c : ℕ) (s : Text) → eqb c dash ≡ false → eqb dash c ≡ false → unescape (c ∷ s) ≡ c ∷ s
unescape-plain c s e e' = rw (no_prefix c s e', unescape) (rw (e) refl)

unescape-escape : (line : Text) → unescape (escape line) ≡ line
unescape-escape [] = refl
unescape-escape (c ∷ s) = elim (Bool-cases (eqb c dash)) [
  | inl e ↦ rw (e) refl
  | inr e ↦ rw (e) (unescape-plain c s e (eqb_sym c dash e))
]

-- The marker's second character is no space.
not_marker : (s r : Text) → rstrip s ≡ r → is_marker clearsign_sig (dash ∷ 32 ∷ s) ≡ false
not_marker s [] e = rw (e) refl
not_marker s (c ∷ r) e = rw (e) refl

is_marker-escape :
    (line : Text)
    → is_marker clearsign_sig line ≡ false
    → is_marker clearsign_sig (escape line) ≡ false
is_marker-escape [] h = h
is_marker-escape (c ∷ s) h = elim (Bool-cases (eqb c dash)) [
  | inl e ↦ rw (e) (not_marker (c ∷ s) _ refl)
  | inr e ↦ rw (e) h
]

payload-escape :
    (lines after : List Text)
    → All IsSigned lines
    → payload (map escape lines ++ (clearsign_sig ∷ after)) ≡ lines
payload-escape [] after h = refl
payload-escape (line ∷ lines) after h =
    rw (is_marker-escape line h.0.1, unescape-escape line, payload-escape lines after h.1) refl

not-true : (b : Bool) → not b ≡ true → b ≡ false
not-true true h = cc
not-true false h = refl

pub IsLine-literal : (s : Text) → all_of (λ c. not (is_line_break c)) s ≡ true → IsLine s
IsLine-literal [] h = tt
IsLine-literal (c ∷ s) h =
    let (first, rest) = both (not (is_line_break c)) _ h in
    (not-true (is_line_break c) first, IsLine-literal s rest)

escape-IsLine : (s : Text) → IsLine s → IsLine (escape s)
escape-IsLine [] h = tt
escape-IsLine (c ∷ s) h = elim (Bool-cases (eqb c dash)) [
  | inl e ↦ rw (e) (refl, (refl, h))
  | inr e ↦ rw (e) h
]

armor-IsLine :
    (headers signed signature : List Text)
    → All IsHeader headers
    → All IsSigned signed
    → All IsLine signature
    → All IsLine (armor headers signed signature)
armor-IsLine headers signed signature h k l =
    All-append IsLine (clearsign_header ∷ headers) _
      (IsLine-literal clearsign_header refl, All-imp IsHeader IsLine headers (λ s p. p.0) h)
      (
        tt,
        All-append IsLine (map escape signed) (clearsign_sig ∷ signature)
            (All-map IsLine escape signed
              (All-imp IsSigned (λ s. IsLine (escape s)) signed (λ s p. escape-IsLine s p.0) k))
            (IsLine-literal clearsign_sig refl, l),
      )

extracted :
    (s : Text)
    → contains_text clearsign_header s ≡ true
    → contains_text clearsign_sig s ≡ true
    → extract_clearsigned_payload s ≡ body (behind_header (splitlines s))
unfolding extract_clearsigned_payload
extracted s h k = rw (h, k) refl

-- A message whose headers, signed lines and signature hold no end of a line, whose headers are not
-- empty, and none of whose signed lines, without the space around it, is the signature's marker, is
-- read as exactly the signed lines, with the dashes at their start.
pub extract-armor :
    (headers signed signature : List Text)
    → All IsHeader headers
    → All IsSigned signed
    → All IsLine signature
    → extract_clearsigned_payload (unlines (armor headers signed signature))
      ≡ ok (join signed ++ (newline ∷ []))
extract-armor headers signed signature h k l =
    let rest = map escape signed ++ (clearsign_sig ∷ signature) in
    let s = unlines (armor headers signed signature) in
    let header = contains_text-line clearsign_header (headers ++ ([] ∷ rest)) in
    let sig = contains_text-lines clearsign_sig (clearsign_header ∷ headers) ([] ∷ rest) (
      contains_text-lines clearsign_sig ([] ∷ map escape signed) (clearsign_sig ∷ signature)
        (contains_text-line clearsign_sig signature)) in
    extracted s header sig
    ∙ ap (λ ls. body (behind_header ls))
        (splitlines-unlines (armor headers signed signature)
          (armor-IsLine headers signed signature h k l))
    ∙ ap (λ ls. ok (join (payload ls) ++ (newline ∷ []))) (behind_blank-append headers rest h)
    ∙ ap (λ ls. ok (join ls ++ (newline ∷ []))) (payload-escape signed signature k)
