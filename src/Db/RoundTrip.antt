-- ===== src/Db/RoundTrip.antt =====
-- What is read back after a write of a machine.
use mathlib.Core.List.{append_assoc, append-nil}
use boxer.Base.{
  String, Bool, true, false, ◌&&◌, ◌≡◌, refl, sym, ap, ◌∙◌, List, [], ◌∷◌, ◌++◌, map, some, All,
  has, first, select, delete_where, Distinct, has-none, first-append, Bool-cases, inl, inr, ◌==◌,
  eq_iff, eq_refl, arith,
}
use boxer.Ipc.{ok}
use boxer.Types.{VmRecord}
use boxer.Db.Schema.{Database, VmRow, TagRow}
use boxer.Db.Vms.{
  by_id, row_of, vm_from_row, insert_tags, get_vm, insert_vm, int_of_bool, bool_of_int,
}
use boxer.Db.WellFormed.{IsWellFormed, HasVm, insert_vm-accepted}

-- The tags of a machine among rows.
abbrev read : String → List TagRow → List (String × String)
read vm_id rows = map (λ t. (t.key, t.value)) (select (λ t. t.vm_id == vm_id) rows)

abbrev key_of : String × String → String
key_of p = p.0

read-delete :
    (vm_id k : String) (rows : List TagRow)
    → has key_of k (read vm_id rows) ≡ false
    → read vm_id (delete_where (λ t. t.vm_id == vm_id && t.key == k) rows) ≡ read vm_id rows
read-delete vm_id k [] h = refl
read-delete vm_id k (t ∷ rows) h = elim (Bool-cases (t.vm_id == vm_id)) [
  | inl e ↦ rw e (elim (Bool-cases (t.key == k)) [
    | inl f ↦ absurd (ground arith)
    | inr f ↦ rw f (rw e (ap (◌∷◌ (t.key, t.value)) (read-delete vm_id k rows (ground arith))))
  ])
  | inr e ↦ rw e (rw e (read-delete vm_id k rows (rw e at h)))
]

has-key-snoc :
    (k k' v : String) (cur : List (String × String))
    → has key_of k' cur ≡ false
    → (k == k') ≡ false
    → has key_of k' (cur ++ (k, v) ∷ []) ≡ false
has-key-snoc k k' v [] h e = ground arith
has-key-snoc k k' v (p ∷ cur) h e = ground (arith, has-key-snoc k k' v cur)

-- The keys of `tags` are none of those of `cur`, and differ from `k`.
no_clash :
    (k v : String) (cur tags : List (String × String))
    → has key_of k tags ≡ false
    → All (λ p. has key_of p.0 cur ≡ false) tags
    → All (λ p. has key_of p.0 (cur ++ (k, v) ∷ []) ≡ false) tags
no_clash k v cur [] h c = tt
no_clash k v cur (p ∷ tags) h c = (
  has-key-snoc k p.0 v cur c.0 (ground (arith, eq_iff k p.0, eq_iff p.0 k)),
  no_clash k v cur tags (ground arith) c.1,
)

read-snoc :
    (vm_id k v : String) (rows : List TagRow)
    → read vm_id (rows ++ record { vm_id = vm_id; key = k; value = v } ∷ [])
      ≡ read vm_id rows ++ (k, v) ∷ []
read-snoc vm_id k v [] = rw (eq_refl vm_id)
read-snoc vm_id k v (t ∷ rows) = elim (Bool-cases (t.vm_id == vm_id)) [
  | inl e ↦ rw e (ap (◌∷◌ (t.key, t.value)) (read-snoc vm_id k v rows))
  | inr e ↦ rw e (read-snoc vm_id k v rows)
]

read-insert_tags :
    (vm_id : String) (tags : List (String × String)) (rows : List TagRow)
    → Distinct key_of tags
    → All (λ p. has key_of p.0 (read vm_id rows) ≡ false) tags
    → read vm_id (insert_tags vm_id tags rows) ≡ read vm_id rows ++ tags
unfolding insert_tags
read-insert_tags vm_id [] rows d c = sym (append-nil (read vm_id rows))
read-insert_tags vm_id ((k, v) ∷ tags) rows d c =
    let stored =
      read-snoc vm_id k v (delete_where (λ t. t.vm_id == vm_id && t.key == k) rows)
      ∙ ap (λ (l : List (String × String)). l ++ (k, v) ∷ []) (read-delete vm_id k rows c.0) in
    read-insert_tags vm_id tags _ d.1 (rw stored (no_clash k v (read vm_id rows) tags d.0 c.1))
    ∙ rw stored (append_assoc (read vm_id rows) ((k, v) ∷ []) tags)

-- A machine that is not there has no tags.
read_fresh :
    (vms : List VmRow) (vm_id : String) (rows : List TagRow)
    → All (λ t. HasVm vms t.vm_id) rows
    → has (λ r. r.id) vm_id vms ≡ false
    → read vm_id rows ≡ []
read_fresh vms vm_id [] h fresh = refl
read_fresh vms vm_id (t ∷ rows) h fresh =
    ground (arith, read_fresh vms vm_id rows h.1 fresh, h.0, eq_iff t.vm_id vm_id)

bool_of_int_of_bool : (b : Bool) → bool_of_int (int_of_bool b) ≡ b
bool_of_int_of_bool true = refl
bool_of_int_of_bool false = refl

row_of-from : (vm : VmRecord) → vm_from_row (row_of vm) vm.tags ≡ vm
unfolding row_of vm_from_row
row_of-from vm = λ i. record vm { headless = bool_of_int_of_bool vm.headless i }

no_key : (tags : List (String × String)) → All (λ p. has key_of p.0 [] ≡ false) tags
no_key [] = tt
no_key (p ∷ tags) = (refl, no_key tags)

module _ {Request : Type 0} (db : Database Request) (w : IsWellFormed db) where
  -- In a database that meets its constraints, a machine that `insert_vm` accepts is read back by
  -- `get_vm` field by field, its tags included, if its tags are a dictionary (no key twice).
  pub get_vm-insert_vm :
      (vm : VmRecord) (db' : Database Request)
      → Distinct key_of vm.tags
      → insert_vm vm db ≡ ok db'
      → get_vm vm.id db' ≡ some vm
  unfolding get_vm row_of
  get_vm-insert_vm vm db' d h =
      let (fresh, _, _, e) = insert_vm-accepted db w vm h in
      let tags : read vm.id (insert_tags vm.id vm.tags db.vm_tags) ≡ vm.tags =
        read-insert_tags vm.id vm.tags db.vm_tags d
          (rw (read_fresh db.vms vm.id db.vm_tags w.tag_vms fresh) (no_key vm.tags))
        ∙ ap (λ (l : List (String × String)). l ++ vm.tags)
            (read_fresh db.vms vm.id db.vm_tags w.tag_vms fresh) in
      let row : first (by_id vm.id) (db.vms ++ row_of vm ∷ []) ≡ some (row_of vm) =
        first-append (by_id vm.id) db.vms (row_of vm ∷ []) (has-none (λ r. r.id) vm.id db.vms fresh)
        ∙ (rw (eq_refl vm.id)) in
      rw (← e) (rw row (rw tags (ap some (row_of-from vm))))
