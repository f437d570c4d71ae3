-- ===== src/Action/Returns.antt =====
-- Actions that return, and what they return.
use boxer.Base.{Bool, true, false, ◌≡◌, refl, subst, if◌then◌else◌}
use boxer.Ipc.{Error, Result, ok, err, ok_injective}
use boxer.Action.{Action, pure, raise, continue, recover, recovered, ◌>>=◌}

-- Every value that `m` returns has `P`.
pub record Gives {S A : Type 0} (P : A → Type 0) (m : Action S A) : Type 0 where
  pub at : (s : S) (a : A) → (m s).0 ≡ ok a → P a

-- `m` returns, whatever the state, and its value has `P`.
pub record Returns {S A : Type 0} (P : A → Type 0) (m : Action S A) : Type 0 where
  pub at : (s : S) → (a : A) × ((m s).0 ≡ ok a) × P a

module _ {S A : Type 0} {P : A → Type 0} where
  pub Gives-pure : (a : A) → P a → Gives P (pure {S = S} a)
  unfolding pure
  Gives-pure a p = record { at = λ s b e. subst P (ok_injective a b e) p }

  pub Returns-pure : (a : A) → P a → Returns P (pure {S = S} a)
  unfolding pure
  Returns-pure a p = record { at = λ s. (a, refl, p) }

  recovered-Returns :
      (handler : Error → Action S A) (r : Result A) (s : S)
      → ((a : A) → r ≡ ok a → P a)
      → ((e : Error) → Returns P (handler e))
      → (a : A) × ((recovered handler r s).0 ≡ ok a) × P a
  recovered-Returns handler (ok a) s g k = (a, refl, g a refl)
  recovered-Returns handler (err e) s g k = (k e).at s

  pub Returns-recover :
      (m : Action S A) (handler : Error → Action S A)
      → Gives P m
      → ((e : Error) → Returns P (handler e))
      → Returns P (recover m handler)
  unfolding recover
  Returns-recover m handler g k = record {
    at = λ s. let (r, t) = m s in recovered-Returns handler r t (g.at s) k;
  }

module _ {S A B : Type 0} {P : B → Type 0} where
  continue-Gives :
      (f : A → Action S B) (r : Result A) (s : S) (b : B)
      → ((a : A) → Gives P (f a))
      → (continue r f s).0 ≡ ok b
      → P b
  continue-Gives f (ok a) s b k e = (k a).at s b e
  continue-Gives f (err x) s b k e = absurd cc

  pub Gives-bind :
      (m : Action S A) (f : A → Action S B) → ((a : A) → Gives P (f a)) → Gives P (m >>= f)
  unfolding ◌>>=◌
  Gives-bind m f k = record { at = λ s b e. let (r, t) = m s in continue-Gives f r t b k e }

-- What `m` returns has `P`, together with the state that it leaves.
pub record Lands {S A : Type 0} (P : A → S → Type 0) (m : Action S A) : Type 0 where
  pub at : (s : S) (a : A) → (m s).0 ≡ ok a → P a (m s).1

module _ {S A B : Type 0} {P : B → S → Type 0} where
  continue-Lands :
      (f : A → Action S B) (r : Result A) (s : S) (b : B)
      → ((a : A) → Lands P (f a))
      → (continue r f s).0 ≡ ok b
      → P b (continue r f s).1
  continue-Lands f (ok a) s b k e = (k a).at s b e
  continue-Lands f (err x) s b k e = absurd cc

  pub Lands-bind :
      (m : Action S A) (f : A → Action S B) → ((a : A) → Lands P (f a)) → Lands P (m >>= f)
  unfolding ◌>>=◌
  Lands-bind m f k = record { at = λ s b e. let (r, t) = m s in continue-Lands f r t b k e }

module _ {S A : Type 0} {P : A → S → Type 0} where
  pub Lands-if :
      (test : Bool) (yes_branch no_branch : Action S A)
      → Lands P yes_branch
      → Lands P no_branch
      → Lands P (if test then yes_branch else no_branch)
  Lands-if true yes_branch no_branch y n = y
  Lands-if false yes_branch no_branch y n = n

  pub Lands-raise : (e : Error) → Lands P (raise e)
  unfolding raise
  Lands-raise e = record { at = λ s a h. absurd cc }
