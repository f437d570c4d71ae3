-- ===== src/Db/Order.antt =====
-- The order of the queue: what the scheduler sees is the pending entries, sorted.
use mathlib.Core.List.Perm
use mathlib.Core.List.{Perm}
use boxer.Base.{
  ℕ, ◌≤◌, ◌<◌, true, false, ◌≡◌, ◌⊎◌, inl, inr, List, [], ◌∷◌, All, All-imp, select, Bool-cases,
  arith,
}
use boxer.Types.{QueueEntry, is_pending}
use boxer.Db.Schema.{Database}
use boxer.Db.Queue.{before, sort_key, insert_sorted, order_by, list_pending_queue}

-- `a` is served no later than `b`: a higher priority, or the same and not younger.
abbrev pub ServedBefore : ℕ × ℕ → ℕ × ℕ → Type 0
ServedBefore a b = (b.0 < a.0) ⊎ ((a.0 ≡ b.0) × (a.1 ≤ b.1))

before-ServedBefore : (a b : ℕ × ℕ) → before a b ≡ true → ServedBefore a b
unfolding before
before-ServedBefore (p, t) (q, u) h = ground arith

not_before-ServedBefore : (a b : ℕ × ℕ) → before a b ≡ false → ServedBefore b a
unfolding before
not_before-ServedBefore (p, t) (q, u) h = ground arith

ServedBefore-trans : (a b c : ℕ × ℕ) → ServedBefore a b → ServedBefore b c → ServedBefore a c
ServedBefore-trans a b c h k = ground arith

module _ {Request : Type 0} where
  abbrev Precedes : QueueEntry Request → QueueEntry Request → Type 0
  Precedes a b = ServedBefore (sort_key a) (sort_key b)

  -- Each entry is served no later than every entry behind it.
  abbrev pub IsSorted : List (QueueEntry Request) → Type 0
  IsSorted [] = Unit {0}
  IsSorted (e ∷ es) = All (Precedes e) es × IsSorted es

  insert_sorted-All :
      (P : QueueEntry Request → Type 0) (e : QueueEntry Request) (es : List (QueueEntry Request))
      → P e
      → All P es
      → All P (insert_sorted e es)
  unfolding insert_sorted
  insert_sorted-All P e [] p h = (p, tt)
  insert_sorted-All P e (x ∷ es) p h = elim (Bool-cases (before (sort_key e) (sort_key x))) [
    | inl b ↦ rw b (p, h)
    | inr b ↦ rw b (h.0, insert_sorted-All P e es p h.1)
  ]

  insert_sorted-IsSorted :
      (e : QueueEntry Request) (es : List (QueueEntry Request))
      → IsSorted es
      → IsSorted (insert_sorted e es)
  unfolding insert_sorted
  insert_sorted-IsSorted e [] h = (tt, tt)
  insert_sorted-IsSorted e (x ∷ es) h = elim (Bool-cases (before (sort_key e) (sort_key x))) [
    | inl b ↦
        let first = before-ServedBefore (sort_key e) (sort_key x) b in
        rw b (
          (
            first,
            All-imp (Precedes x) (Precedes e) es
                (λ y. ServedBefore-trans (sort_key e) (sort_key x) (sort_key y) first) h.0,
          ),
          h,
        )
    | inr b ↦ rw b (
      insert_sorted-All (Precedes x) e es (not_before-ServedBefore (sort_key e) (sort_key x) b) h.0,
      insert_sorted-IsSorted e es h.1,
    )
  ]

  order_by-IsSorted : (es : List (QueueEntry Request)) → IsSorted (order_by es)
  unfolding order_by
  order_by-IsSorted [] = tt
  order_by-IsSorted (e ∷ es) = insert_sorted-IsSorted e (order_by es) (order_by-IsSorted es)

  insert_sorted-perm :
      (e : QueueEntry Request) (es : List (QueueEntry Request)) → Perm (insert_sorted e es) (e ∷ es)
  unfolding insert_sorted
  insert_sorted-perm e [] = Perm.refl (e ∷ [])
  insert_sorted-perm e (x ∷ es) = elim (Bool-cases (before (sort_key e) (sort_key x))) [
    | inl b ↦ rw b (Perm.refl (e ∷ x ∷ es))
    | inr b ↦ rw b (Perm.trans (Perm.cons x (insert_sorted-perm e es)) (Perm.swap e x es))
  ]

  order_by-perm : (es : List (QueueEntry Request)) → Perm (order_by es) es
  unfolding order_by
  order_by-perm [] = Perm.nil
  order_by-perm (e ∷ es) =
      Perm.trans (insert_sorted-perm e (order_by es)) (Perm.cons e (order_by-perm es))

  -- The list of waiting entries is sorted by priority and then by age, and holds exactly the
  -- pending entries of the table, as often.
  pub list_pending_queue-IsSorted :
      (db : Database Request)
      → IsSorted (list_pending_queue db)
        × Perm (list_pending_queue db) (select (λ e. is_pending e.status) db.queue)
  unfolding list_pending_queue
  list_pending_queue-IsSorted db = (
    order_by-IsSorted (select (λ e. is_pending e.status) db.queue),
    order_by-perm (select (λ e. is_pending e.status) db.queue),
  )
