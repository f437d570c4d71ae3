-- ===== src/Action/Leaves.antt =====
-- What holds once an action has returned: an exception promises nothing.
use boxer.Base.{◌≡◌}
use boxer.Ipc.{Result, ok, err}
use boxer.Action.{Action, continue, ◌>>=◌}
use boxer.Action.Keeps.{Keeps}

-- If `m` returns, it ends in `P`.
pub record Leaves {S A : Type 0} (P : S → Type 0) (m : Action S A) : Type 0 where
  pub at : (s : S) (a : A) → (m s).0 ≡ ok a → P (m s).1

module _ {S A B : Type 0} {P : S → Type 0} where
  continue-before :
      (f : A → Action S B) (b : B) (r : Result A) (s : S)
      → ((a : A) → Keeps P (f a))
      → ((a : A) → r ≡ ok a → P s)
      → (continue r f s).0 ≡ ok b
      → P (continue r f s).1
  continue-before f b (ok a) s k h e = (k a).at s (h a (λ _. ok a))
  continue-before f b (err x) s k h e = absurd cc

  -- The first action ends in `P`, and the rest keeps it.
  pub Leaves-before :
      (m : Action S A) (f : A → Action S B)
      → Leaves P m
      → ((a : A) → Keeps P (f a))
      → Leaves P (m >>= f)
  unfolding ◌>>=◌
  Leaves-before m f l k = record {
    at = λ s b e. let (r, t) = m s in continue-before f b r t k (l.at s) e;
  }

  continue-after :
      (f : A → Action S B) (b : B) (r : Result A) (s : S)
      → ((a : A) → Leaves P (f a))
      → (continue r f s).0 ≡ ok b
      → P (continue r f s).1
  continue-after f b (ok a) s l e = (l a).at s b e
  continue-after f b (err x) s l e = absurd cc

  -- The rest ends in `P`, whatever comes before.
  pub Leaves-after :
      (m : Action S A) (f : A → Action S B) → ((a : A) → Leaves P (f a)) → Leaves P (m >>= f)
  unfolding ◌>>=◌
  Leaves-after m f l = record { at = λ s b e. let (r, t) = m s in continue-after f b r t l e }
