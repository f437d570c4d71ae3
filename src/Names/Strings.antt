-- ===== src/Names/Strings.antt =====
-- Code points as a string of the language, which is checked to hold scalar values only.
use Prim.Native.Char.{Char, char, nul, IsLt}
use Prim.Native.Nat.{Ordering, compare}
use boxer.Base.{ℕ, String, List, [], ◌∷◌}

abbrev BothLt : Ordering → Ordering → Type 0
BothLt Ordering.lt o = IsLt o
BothLt Ordering.eq _ = ⊥
BothLt Ordering.gt _ = ⊥

-- The test that `IsScalar` is made of.
abbrev Scalar : Ordering → Ordering → Ordering → Type 0
Scalar Ordering.lt _ _ = Unit
Scalar Ordering.eq o p = BothLt o p
Scalar Ordering.gt o p = BothLt o p

abbrev less_dec : (o : Ordering) → Dec (IsLt o)
less_dec Ordering.lt = yes tt
less_dec Ordering.eq = no λ h. h
less_dec Ordering.gt = no λ h. h

abbrev both_dec : (o p : Ordering) → Dec (BothLt o p)
both_dec Ordering.lt p = less_dec p
both_dec Ordering.eq p = no λ h. h
both_dec Ordering.gt p = no λ h. h

abbrev scalar_dec : (o p q : Ordering) → Dec (Scalar o p q)
scalar_dec Ordering.lt p q = yes tt
scalar_dec Ordering.eq p q = both_dec p q
scalar_dec Ordering.gt p q = both_dec p q

abbrev char_of : ℕ → Char
char_of n = elim (scalar_dec (compare n 55296) (compare 57343 n) (compare n 1114112)) [
  | yes p ↦ char n p
  | no _ ↦ nul
]

unfoldable pub string : List ℕ → String
string [] = String.[]
string (c ∷ s) = String.◌∷◌ (char_of c) (string s)
