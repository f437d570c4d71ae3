-- ===== src/Names/Patterns.antt =====
-- The regular expressions of boxerd/labs.py and boxerd/daemon.py, over the code points of a text.
use boxer.Base.{ℕ, zero, suc, Bool, true, false, ◌&&◌, ◌||◌, [], ◌∷◌, leb, eqb, if◌then◌else◌}
use boxer.Names.{Text}

abbrev pub newline : ℕ
newline = 10

abbrev pub between : ℕ → ℕ → ℕ → Bool
between lo hi c = leb lo c && leb c hi

abbrev pub is_lower : ℕ → Bool
is_lower = between b'a' b'z'

abbrev pub is_digit : ℕ → Bool
is_digit = between b'0' b'9'

abbrev pub is_letter : ℕ → Bool
is_letter c = is_lower c || between b'A' b'Z' c

-- `[...]{0,n}$` from here on: `$` also matches before a newline at the end.
unfoldable pub matches_rest : (ℕ → Bool) → ℕ → Text → Bool
matches_rest allowed n [] = true
matches_rest allowed zero (c ∷ s) = eqb c newline && elim s [ [] ↦ true | _ ∷ _ ↦ false ]
matches_rest allowed (suc n) (c ∷ s) =
    let rest = matches_rest allowed n s in
    if allowed c then rest else eqb c newline && elim s [ [] ↦ true | _ ∷ _ ↦ false ]

abbrev pub matches_class : (ℕ → Bool) → (ℕ → Bool) → ℕ → Text → Bool
matches_class first allowed n [] = false
matches_class first allowed n (c ∷ s) = first c && matches_rest allowed n s
