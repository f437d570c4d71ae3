-- ===== src/Names/Split.antt =====
-- Where the first "--" of a text is.
use boxer.Base.{◌+◌, ◌≡◌, refl, none, some, [], ◌∷◌, ◌++◌, length, Option-cases, inl, inr, arith}
use boxer.Names.{Text, dash, cut}

-- The text and a dash behind it hold no "--": it has none, and does not end with a dash.
abbrev pub IsPlain : Text → Type 0
IsPlain s = cut (s ++ dash ∷ []) ≡ none

-- A plain text is what stands before the first "--".
pub cut-IsPlain : (s t : Text) → IsPlain s → cut (s ++ dash ∷ dash ∷ t) ≡ some (s, t)
unfolding cut
cut-IsPlain [] t h = refl
cut-IsPlain (c ∷ []) t h = ground arith
cut-IsPlain (c ∷ d ∷ s) t h = ground (arith, cut-IsPlain (d ∷ s) t)

-- A text behind moves no cut.
pub cut-append : (s t a b : Text) → cut s ≡ some (a, b) → cut (s ++ t) ≡ some (a, b ++ t)
unfolding cut
cut-append [] t a b h = absurd (ground arith)
cut-append (c ∷ []) t a b h = absurd (ground arith)
cut-append (c ∷ d ∷ s) t a b h = elim (Option-cases (cut (d ∷ s))) [
  | inl n ↦ ground arith
  | inr ((u, v), e) ↦ ground (arith, cut-append (d ∷ s) t u v e)
]

pub length-cut : (s a b : Text) → cut s ≡ some (a, b) → length a + 2 + length b ≡ length s
unfolding cut
length-cut [] a b h = absurd (ground arith)
length-cut (c ∷ []) a b h = absurd (ground arith)
length-cut (c ∷ d ∷ s) a b h = elim (Option-cases (cut (d ∷ s))) [
  | inl n ↦ ground arith
  | inr ((u, v), e) ↦ ground (arith, length-cut (d ∷ s) u v e)
]
