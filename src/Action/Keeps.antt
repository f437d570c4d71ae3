-- ===== src/Action/Keeps.antt =====
-- Invariants of actions, by one rule for each way to build an action.
use boxer.Base.{◌≡◌, refl, Bool, true, false, if◌then◌else◌}
use boxer.Ipc.{Error, Result, ok, err}
use boxer.Action.{Action, pure, raise, lift, gets, modify, recover, recovered, continue, ◌>>=◌}

-- Whether `m` returns or raises, it keeps `P`.
pub record Keeps {S A : Type 0} (P : S → Type 0) (m : Action S A) : Type 0 where
  pub at : (s : S) → P s → P (m s).1

module _ {S A : Type 0} {P : S → Type 0} where
  pub Keeps-gets : (read : S → A) → Keeps P (gets read)
  unfolding gets
  Keeps-gets read = record { at = λ state held. held }

  pub Keeps-lift : (result : Result A) → Keeps P (lift result)
  unfolding lift
  Keeps-lift result = record { at = λ state held. held }

  pub Keeps-pure : (value : A) → Keeps P (pure value)
  unfolding pure
  Keeps-pure value = record { at = λ state held. held }

  pub Keeps-raise : (e : Error) → Keeps P (raise {A = A} e)
  unfolding raise
  Keeps-raise e = record { at = λ state held. held }

  -- Each branch may use how the test came out.
  pub Keeps-if :
      (test : Bool) (yes_branch no_branch : Action S A)
      → ((test ≡ false) → Keeps P no_branch)
      → ((test ≡ true) → Keeps P yes_branch)
      → Keeps P (if test then yes_branch else no_branch)
  Keeps-if false yes_branch no_branch f t = f refl
  Keeps-if true yes_branch no_branch f t = t refl

  recovered-at :
      (handler : Error → Action S A) (r : Result A) (s : S)
      → ((e : Error) → Keeps P (handler e))
      → P s
      → P (recovered handler r s).1
  recovered-at handler (ok a) s k h = h
  recovered-at handler (err e) s k h = (k e).at s h

  pub Keeps-recover :
      (m : Action S A) (handler : Error → Action S A)
      → Keeps P m
      → ((e : Error) → Keeps P (handler e))
      → Keeps P (recover m handler)
  unfolding recover
  Keeps-recover m handler km kh = record {
    at = λ s h. let (r, t) = m s in recovered-at handler r t kh (km.at s h);
  }

pub Keeps-modify :
    {S : Type 0} {P : S → Type 0} (f : S → S) → ((s : S) → P s → P (f s)) → Keeps P (modify f)
unfolding modify
Keeps-modify f k = record { at = k }

module _ {S A B : Type 0} {P : S → Type 0} where
  continue-at :
      (f : A → Action S B) (r : Result A) (s : S)
      → ((a : A) → Keeps P (f a))
      → P s
      → P (continue r f s).1
  continue-at f (ok a) s k h = (k a).at s h
  continue-at f (err e) s k h = h

  -- The rest has to keep it from whichever value it gets.
  pub Keeps-bind :
      (start : Action S A) (rest : A → Action S B)
      → Keeps P start
      → ((value : A) → Keeps P (rest value))
      → Keeps P (start >>= rest)
  unfolding ◌>>=◌
  Keeps-bind start rest kept each = record {
    at = λ s held. let (result, s₁) = start s in continue-at rest result s₁ each (kept.at s held);
  }

pub ruleset keeps_rules =
    (Keeps-pure, Keeps-raise, Keeps-gets, Keeps-lift, Keeps-if, Keeps-recover, Keeps-bind)
