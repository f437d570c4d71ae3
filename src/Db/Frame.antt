-- ===== src/Db/Frame.antt =====
-- What a write of one machine does to what is read of every machine.
use mathlib.Core.Option
use boxer.Base.{
  ℕ, String, false, ◌≡◌, refl, ap, List, [], ◌∷◌, map, Option, none, some, first, first-holds,
  select, delete_where, update_where, Bool-cases, inl, inr, ◌==◌, eq_iff, arith, if◌then◌else◌,
}
use boxer.Types.{VmRecord, VmState}
use boxer.Db.Schema.{Database, VmRow, TagRow}
use boxer.Db.Vms.{by_id, get_vm, vm_from_row, get_tags, update_vm_state, update_vm_lease, delete_vm}

first-update :
    (j k : String) (f : VmRow → VmRow) (rows : List VmRow)
    → ((r : VmRow) → (f r).id ≡ r.id)
    → first (by_id j) (update_where (by_id k) f rows)
      ≡ (if k == j then Option.map f (first (by_id j) rows) else first (by_id j) rows)
first-update j k f [] same = ground arith
first-update j k f (r ∷ rows) same =
    ground (arith, same r, first-update j k f rows same, eq_iff r.id k, eq_iff r.id j, eq_iff k j)

first-delete_where :
    (j k : String) (rows : List VmRow)
    → first (by_id j) (delete_where (by_id k) rows)
      ≡ (if k == j then none else first (by_id j) rows)
first-delete_where j k [] = ground arith
first-delete_where j k (r ∷ rows) =
    ground (arith, first-delete_where j k rows, eq_iff r.id k, eq_iff r.id j, eq_iff k j)

select-delete_where :
    (j k : String) (rows : List TagRow)
    → (k == j) ≡ false
    → select (λ t. t.vm_id == j) (delete_where (λ t. t.vm_id == k) rows)
      ≡ select (λ t. t.vm_id == j) rows
select-delete_where j k [] h = refl
select-delete_where j k (t ∷ rows) h =
    ground (arith, select-delete_where j k rows h, eq_iff t.vm_id k, eq_iff t.vm_id j, eq_iff k j)

abbrev pub restated : VmState → ℕ → VmRecord → VmRecord
restated state now vm = record vm { state = state; last_touched = now }

abbrev pub leased_until : ℕ → ℕ → VmRecord → VmRecord
leased_until lease_until now vm = record vm { lease_until = lease_until; last_touched = now }

module _ {Request : Type 0} (db : Database Request) where
  -- `update_vm_state` writes the state and the time of its machine, and no other field or machine.
  pub get_vm-update_vm_state :
      (j k : String) (state : VmState) (now : ℕ)
      → get_vm j (update_vm_state k state now db)
        ≡ (if k == j then Option.map (restated state now) (get_vm j db) else get_vm j db)
  unfolding get_vm update_vm_state
  get_vm-update_vm_state j k state now =
      rw (first-update j k (λ r. record r { state = state; last_touched = now }) db.vms (λ _. refl))
        (ground arith)

  -- `update_vm_lease` writes the lease and the time of its machine, and no other field or machine.
  pub get_vm-update_vm_lease :
      (j k : String) (lease_until now : ℕ)
      → get_vm j (update_vm_lease k lease_until now db)
        ≡ (if k == j then Option.map (leased_until lease_until now) (get_vm j db) else get_vm j db)
  unfolding get_vm update_vm_lease
  get_vm-update_vm_lease j k lease_until now =
      rw
        (first-update j k (λ r. record r { lease_until = lease_until; last_touched = now }) db.vms
          (λ _. refl))
        (ground arith)

  -- The machine of a row that a query for `j` returns.
  with_tags-delete :
      (j k : String) (row : Option VmRow)
      → ((r : VmRow) → row ≡ some r → r.id ≡ j)
      → (k == j) ≡ false
      → Option.map (λ r. vm_from_row r (get_tags (delete_vm k db) r.id)) row
        ≡ Option.map (λ r. vm_from_row r (get_tags db r.id)) row
  unfolding get_tags delete_vm
  with_tags-delete j k none at_j h = refl
  with_tags-delete j k (some r) at_j h =
      ap (λ (l : List TagRow). some (vm_from_row r (map (λ t. (t.key, t.value)) l)))
        (select-delete_where r.id k db.vm_tags (rw (at_j r refl) h))

  -- A deleted machine is gone, and every other is read with its tags as before.
  pub get_vm-delete_vm :
      (j k : String) → get_vm j (delete_vm k db) ≡ (if k == j then none else get_vm j db)
  unfolding get_vm delete_vm
  get_vm-delete_vm j k = elim (Bool-cases (k == j)) [
    | inl e ↦ rw (first-delete_where j k db.vms) (rw e refl)
    | inr e ↦ rw (first-delete_where j k db.vms) (
        rw e (
          with_tags-delete j k (first (by_id j) db.vms)
            (λ r q. (eq_iff r.id j).0 (first-holds (by_id j) db.vms r q)) e))
  ]
