-- ===== src/Base/Tables.antt =====
-- SQL tables as lists of rows in insertion order: the statements SELECT, UPDATE and DELETE with a
-- WHERE clause, keys, and foreign keys.
use Prim.Native.Nat.{◌≤◌}
use Prim.Native.String.{String}
use mathlib.Core.Path.{◌≡◌, refl, sym, ap, subst}
use mathlib.Core.Logic.{◌≢◌, inl, inr}
use mathlib.Core.List.{List, [], ◌∷◌, ◌++◌}
use mathlib.Core.Bool.{Bool, true, false, not}
use mathlib.Core.Option.{Option, none, some}
use native.Mathlib.Omega.{arith}
use text.Mathlib.Text.{◌==◌}
use text.Mathlib.TextEquality.{eq_iff}
use boxer.Base.Tests.{if◌then◌else◌, Bool-cases}
use boxer.Base.Lists.{All, length}

some-ne-none {ℓ} : {A : Type ℓ} {a : A} → ◌≢◌ {A = Option A} (some a) none
some-ne-none e = cc

module _ {ℓ} {A : Type ℓ} where
  -- SELECT * FROM rows WHERE p
  abbrev pub select : (A → Bool) → List A → List A
  select p [] = []
  select p (r ∷ rs) = let rest = select p rs in if p r then r ∷ rest else rest

  -- DELETE FROM rows WHERE p
  abbrev pub delete_where : (A → Bool) → List A → List A
  delete_where p = select (λ r. not (p r))

  -- UPDATE rows SET f WHERE p
  abbrev pub update_where : (A → Bool) → (A → A) → List A → List A
  update_where p f [] = []
  update_where p f (r ∷ rs) = (if p r then f r else r) ∷ update_where p f rs

  -- fetchone of SELECT * FROM rows WHERE p
  abbrev pub first : (A → Bool) → List A → Option A
  first p [] = none
  first p (r ∷ rs) = if p r then some r else first p rs

  abbrev pub has : (A → String) → String → List A → Bool
  has key k [] = false
  has key k (r ∷ rs) = if key r == k then true else has key k rs

  -- No two rows have one key.
  abbrev pub Distinct : (A → String) → List A → Type 0
  Distinct key [] = Unit {0}
  Distinct key (r ∷ rs) = (has key (key r) rs ≡ false) × Distinct key rs

  pub All-select {κ} :
      (P : A → Type κ) (p : A → Bool) (rs : List A) → All P rs → All P (select p rs)
  All-select P p [] h = tt
  All-select P p (r ∷ rs) h = elim (Bool-cases (p r)) [
    | inl e ↦ rw e (h.0, All-select P p rs h.1)
    | inr e ↦ rw e (All-select P p rs h.1)
  ]

  pub All-update {κ} :
      (P : A → Type κ) (p : A → Bool) (f : A → A) (rs : List A)
      → ((r : A) → P r → P (f r))
      → All P rs
      → All P (update_where p f rs)
  All-update P p f [] keep h = tt
  All-update P p f (r ∷ rs) keep h = elim (Bool-cases (p r)) [
    | inl e ↦ rw e (keep r h.0, All-update P p f rs keep h.1)
    | inr e ↦ rw e (h.0, All-update P p f rs keep h.1)
  ]

  pub All-first {κ} :
      (P : A → Type κ) (p : A → Bool) (rs : List A) (r : A) → All P rs → first p rs ≡ some r → P r
  All-first P p [] r h e = absurd (some-ne-none (sym e))
  All-first P p (x ∷ xs) r h e = elim (Bool-cases (p x)) [
    | inl t ↦ let q : some x ≡ some r = rw t at e in let i : x ≡ r = cc in subst P i h.0
    | inr t ↦ All-first P p xs r h.1 (rw t at e)
  ]

  -- The row that a query returns passes its test.
  pub first-holds : (p : A → Bool) (rs : List A) (r : A) → first p rs ≡ some r → p r ≡ true
  first-holds p [] r e = absurd (some-ne-none (sym e))
  first-holds p (x ∷ xs) r e = elim (Bool-cases (p x)) [
    | inl t ↦
        let q : some x ≡ some r = rw t at e in let i : x ≡ r = cc in subst (λ y. p y ≡ true) i t
    | inr t ↦ first-holds p xs r (rw t at e)
  ]

  pub first-delete : (p : A → Bool) (rs : List A) → first p (delete_where p rs) ≡ none
  first-delete p [] = refl
  first-delete p (r ∷ rs) = elim (Bool-cases (p r)) [
    | inl e ↦ rw e (first-delete p rs)
    | inr e ↦ rw e (rw e (first-delete p rs))
  ]

  pub has-append :
      (key : A → String) (k : String) (xs ys : List A)
      → has key k (xs ++ ys) ≡ (if has key k xs then true else has key k ys)
  has-append key k [] ys = refl
  has-append key k (x ∷ xs) ys = ground (arith, has-append key k xs ys)

  -- Dropping rows makes no key appear.
  pub has-select :
      (key : A → String) (k : String) (p : A → Bool) (rs : List A)
      → has key k rs ≡ false
      → has key k (select p rs) ≡ false
  has-select key k p [] h = refl
  has-select key k p (r ∷ rs) h = ground (arith, has-select key k p rs)

  pub Distinct-select :
      (key : A → String) (p : A → Bool) (rs : List A) → Distinct key rs → Distinct key (select p rs)
  Distinct-select key p [] h = tt
  Distinct-select key p (r ∷ rs) h = elim (Bool-cases (p r)) [
    | inl e ↦ rw e (has-select key (key r) p rs h.0, Distinct-select key p rs h.1)
    | inr e ↦ rw e (Distinct-select key p rs h.1)
  ]

  -- An update that keeps the key keeps the keys.
  pub has-update :
      (key : A → String) (k : String) (p : A → Bool) (f : A → A) (rs : List A)
      → ((r : A) → key (f r) ≡ key r)
      → has key k (update_where p f rs) ≡ has key k rs
  has-update key k p f [] same = refl
  has-update key k p f (r ∷ rs) same = ground (arith, same r, has-update key k p f rs same)

  pub Distinct-update :
      (key : A → String) (p : A → Bool) (f : A → A) (rs : List A)
      → ((r : A) → key (f r) ≡ key r)
      → Distinct key rs
      → Distinct key (update_where p f rs)
  Distinct-update key p f [] same h = tt
  Distinct-update key p f (r ∷ rs) same h = elim (Bool-cases (p r)) [
    | inl e ↦
        rw e
          (rw (same r, has-update key (key r) p f rs same) h.0, Distinct-update key p f rs same h.1)
    | inr e ↦
        rw e (rw (has-update key (key r) p f rs same) h.0, Distinct-update key p f rs same h.1)
  ]

  pub Distinct-append :
      (key : A → String) (rs : List A) (r : A)
      → Distinct key rs
      → has key (key r) rs ≡ false
      → Distinct key (rs ++ r ∷ [])
  Distinct-append key [] r h fresh = (refl, tt)
  Distinct-append key (x ∷ xs) r h fresh = (
    rw (has-append key (key x) xs (r ∷ []))
        (ground (arith, eq_iff (key x) (key r), eq_iff (key r) (key x))),
    Distinct-append key xs r h.1 (ground arith),
  )

  -- A key that is absent is at no row.
  pub has-none :
      (key : A → String) (k : String) (rs : List A)
      → has key k rs ≡ false
      → first (λ r. key r == k) rs ≡ none
  has-none key k [] h = refl
  has-none key k (r ∷ rs) h = ground (arith, has-none key k rs)

  pub has-some :
      (key : A → String) (k : String) (rs : List A) (r : A)
      → first (λ r. key r == k) rs ≡ some r
      → has key k rs ≡ true
  has-some key k [] r h = absurd (some-ne-none (sym h))
  has-some key k (x ∷ rs) r h = ground (arith, has-some key k rs r)

  pub first-append :
      (p : A → Bool) (xs ys : List A) → first p xs ≡ none → first p (xs ++ ys) ≡ first p ys
  first-append p [] ys h = refl
  first-append p (x ∷ xs) ys h = elim (Bool-cases (p x)) [
    | inl e ↦ absurd (some-ne-none (rw e at h))
    | inr e ↦ rw e (first-append p xs ys (rw e at h))
  ]

  pub select-append :
      (p : A → Bool) (xs ys : List A) → select p (xs ++ ys) ≡ select p xs ++ select p ys
  select-append p [] ys = refl
  select-append p (x ∷ xs) ys = elim (Bool-cases (p x)) [
    | inl e ↦ rw e (ap (◌∷◌ x) (select-append p xs ys))
    | inr e ↦ rw e (select-append p xs ys)
  ]

  pub length-select-le : (p : A → Bool) (rs : List A) → length (select p rs) ≤ length rs
  length-select-le p [] = omega arith
  length-select-le p (r ∷ rs) = ground (arith, length-select-le p rs)

  -- Deleting by a key takes that key away, and no other.
  pub has-delete :
      (key : A → String) (k d : String) (rs : List A)
      → has key k (delete_where (λ r. key r == d) rs) ≡ (if d == k then false else has key k rs)
  has-delete key k d [] = ground arith
  has-delete key k d (r ∷ rs) =
      ground (arith, has-delete key k d rs, eq_iff (key r) d, eq_iff (key r) k, eq_iff d k)

  pub All-delete {κ ι} :
      (P : A → Type κ) (Q : A → Type ι) (p : A → Bool) (rs : List A)
      → ((r : A) → p r ≡ false → P r → Q r)
      → All P rs
      → All Q (delete_where p rs)
  All-delete P Q p [] f h = tt
  All-delete P Q p (r ∷ rs) f h = elim (Bool-cases (p r)) [
    | inl e ↦ rw e (All-delete P Q p rs f h.1)
    | inr e ↦ rw e (f r e h.0, All-delete P Q p rs f h.1)
  ]
