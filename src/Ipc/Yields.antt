-- ===== src/Ipc/Yields.antt =====
-- What is known of a value that a chain of fallible steps returns.
use boxer.Base.{Bool, true, false, ◌≡◌, refl, subst, arith}
use boxer.Ipc.{Error, Result, ok, err, require, refuse, ok_injective, ◌>>=◌, ◌>>◌}

-- Every value that `r` returns has `P`.
pub record Yields {A : Type 0} (P : A → Type 0) (r : Result A) : Type 0 where
  pub result : (a : A) → r ≡ ok a → P a

module _ {A : Type 0} {P : A → Type 0} where
  pub Yields-ok : (a : A) → P a → Yields P (ok a)
  Yields-ok a p = record { result = λ b h. subst P (ok_injective a b h) p }

  pub Yields-err : (e : Error) → Yields P (err e)
  Yields-err e = record { result = λ b h. absurd (ground arith) }

  pub Yields-refuse :
      (test : Bool) (e : Error) (rest : Result A)
      → ((test ≡ false) → Yields P rest)
      → Yields P (refuse test e >> rest)
  Yields-refuse true e rest k = Yields-err e
  Yields-refuse false e rest k = k refl

  pub Yields-require :
      (test : Bool) (e : Error) (rest : Result A)
      → ((test ≡ true) → Yields P rest)
      → Yields P (require test e >> rest)
  Yields-require true e rest k = k refl
  Yields-require false e rest k = Yields-err e

pub Yields-bind :
    {A B : Type 0} {Q : A → Type 0} {P : B → Type 0} (r : Result A) (f : A → Result B)
    → Yields Q r
    → ((a : A) → Q a → Yields P (f a))
    → Yields P (r >>= f)
Yields-bind (ok a) f y k = k a (y.result a refl)
Yields-bind (err e) f y k = Yields-err e

-- What comes out without a promise.
pub Yields-any : {A : Type 0} (r : Result A) → Yields (λ a. r ≡ ok a) r
Yields-any r = record { result = λ a h. h }
