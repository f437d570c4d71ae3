-- ===== src/Action.antt =====
-- Methods that await, change the database and the world around it, and may raise: what was written
-- before an exception stays written, so the state comes back beside it.
pub mod Keeps
pub mod Leaves
pub mod Moves
pub mod Returns
use boxer.Ipc.{Error, Result, ok, err}

abbrev pub Action : Type 0 → Type 0 → Type 0
Action S A = S → Result A × S

module _ {S A : Type 0} where
  unfoldable pub pure : A → Action S A
  pure a s = (ok a, s)

  unfoldable pub raise : Error → Action S A
  raise e s = (err e, s)

  unfoldable pub lift : Result A → Action S A
  lift r s = (r, s)

  unfoldable pub gets : (S → A) → Action S A
  gets f s = (ok (f s), s)

  abbrev pub recovered : (Error → Action S A) → Result A → S → Result A × S
  recovered handler (ok a) s = (ok a, s)
  recovered handler (err e) s = handler e s

  -- `try: m; except Exception: handler`
  unfoldable pub recover : Action S A → (Error → Action S A) → Action S A
  recover m handler s = let (r, t) = m s in recovered handler r t

unfoldable pub modify : {S : Type 0} → (S → S) → Action S (Unit {0})
modify f s = (ok tt, f s)

module _ {S A B : Type 0} where
  abbrev pub continue : Result A → (A → Action S B) → Action S B
  continue (ok a) f s = f a s
  continue (err e) f s = (err e, s)

  infixl 5 ◌>>=◌ ◌>>◌
  -- Opening this opens the other ways to build an action.
  unfoldable pub ◌>>=◌ : Action S A → (A → Action S B) → Action S B
  unfolding pure raise lift gets modify recover
  ◌>>=◌ m f s = let (r, t) = m s in continue r f t

  abbrev pub ◌>>◌ : Action S A → Action S B → Action S B
  m >> n = m >>= λ _. n
