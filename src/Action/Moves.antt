-- ===== src/Action/Moves.antt =====
-- Actions that take one invariant to another, whether they return or raise.
use boxer.Base.{◌≡◌, refl}
use boxer.Ipc.{Error, Result, ok, err}
use boxer.Action.{Action, continue, recover, recovered, ◌>>=◌}
use boxer.Action.Keeps.{Keeps}
use boxer.Action.Leaves.{Leaves}

-- From `P`, the action ends in `Q`.
pub record Moves {S A : Type 0} (P Q : S → Type 0) (m : Action S A) : Type 0 where
  pub at : (s : S) → P s → Q (m s).1

module _ {S A : Type 0} {P Q : S → Type 0} where
  -- An action that keeps `P`, where `P` implies `Q`.
  pub Moves-weaken : (m : Action S A) → ((s : S) → P s → Q s) → Keeps P m → Moves P Q m
  Moves-weaken m imp k = record { at = λ s h. imp _ (k.at s h) }

  recovered-at :
      (handler : Error → Action S A) (r : Result A) (s : S)
      → ((a : A) → r ≡ ok a → Q s)
      → ((e : Error) → Moves P Q (handler e))
      → P s
      → Q (recovered handler r s).1
  recovered-at handler (ok a) s q k h = q a refl
  recovered-at handler (err e) s q k h = (k e).at s h

  -- A handler that ends in `Q`, around an action that does if it returns.
  pub Moves-recover :
      (m : Action S A) (handler : Error → Action S A)
      → Leaves Q m
      → Keeps P m
      → ((e : Error) → Moves P Q (handler e))
      → Moves P Q (recover m handler)
  unfolding recover
  Moves-recover m handler l keeps k = record {
    at = λ s h. let (r, t) = m s in recovered-at handler r t (l.at s) k (keeps.at s h);
  }

late-at :
    {S A B : Type 0} {Q : S → Type 0} (f : A → Action S B) (r : Result A) (s : S)
    → ((a : A) → Keeps Q (f a))
    → Q s
    → Q (continue r f s).1
late-at f (ok a) s k h = (k a).at s h
late-at f (err e) s k h = h

module _ {S A B : Type 0} {P Q : S → Type 0} where
  early-at :
      (f : A → Action S B) (r : Result A) (s : S)
      → ((t : S) → P t → Q t)
      → ((a : A) → Moves P Q (f a))
      → P s
      → Q (continue r f s).1
  early-at f (ok a) s imp k h = (k a).at s h
  early-at f (err e) s imp k h = imp s h

  -- The first action keeps `P`, which is enough for `Q` where it raises; the rest moves on.
  pub Moves-before :
      (m : Action S A) (f : A → Action S B)
      → ((t : S) → P t → Q t)
      → Keeps P m
      → ((a : A) → Moves P Q (f a))
      → Moves P Q (m >>= f)
  unfolding ◌>>=◌
  Moves-before m f imp keeps k = record {
    at = λ s h. let (r, t) = m s in early-at f r t imp k (keeps.at s h);
  }

  -- The first action moves on, and the rest keeps `Q`.
  pub Moves-after :
      (m : Action S A) (f : A → Action S B)
      → Moves P Q m
      → ((a : A) → Keeps Q (f a))
      → Moves P Q (m >>= f)
  unfolding ◌>>=◌
  Moves-after m f moves k = record {
    at = λ s h. let (r, t) = m s in late-at f r t k (moves.at s h);
  }
