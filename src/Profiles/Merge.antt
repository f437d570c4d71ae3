-- ===== src/Profiles/Merge.antt =====
-- What merging lists of boxerd/profiles.py keeps.
use boxer.Base.{
  ℕ, String, Bool, true, false, not, ◌||◌, ◌≡◌, ◌↔◌, refl, List, [], ◌∷◌, ◌++◌, length, ltb, ◌≤◌,
  ◌==◌, eq_iff, arith, Bool-cases, inl, inr, Option, none, some, if◌then◌else◌,
}
use boxer.Ipc.{ok, invalid}
use boxer.Profiles.{
  Profile, Bootstrap, max_profiles, contains, dedupe_from, dedupe_keep_order, all_known,
  merge_profiles, resolve_profiles, find_profile, add_profile,
}

-- Each entry stands once.
abbrev pub IsUnique : List String → Type 0
IsUnique [] = Unit
IsUnique (x ∷ xs) = (contains x xs ≡ false) × IsUnique xs

contains-append :
    (x : String) (xs ys : List String) → contains x (xs ++ ys) ≡ (contains x xs || contains x ys)
contains-append x [] ys = refl
contains-append x (y ∷ xs) ys = ground (arith, contains-append x xs ys)

IsUnique-append :
    (xs : List String) (y : String) → IsUnique xs → contains y xs ≡ false → IsUnique (xs ++ y ∷ [])
IsUnique-append [] y u h = (refl, tt)
IsUnique-append (x ∷ xs) y u h = (
  ground (arith, u.0, contains-append x xs (y ∷ []), eq_iff x y, eq_iff y x),
  IsUnique-append xs y u.1 (ground arith),
)

seen_before :
    (x item : String) (out items : List String)
    → contains item out ≡ true
    → (contains x out || contains x items) ≡ (contains x out || contains x (item ∷ items))
seen_before x item out items e = elim (Bool-cases (x == item)) [
  | inl q ↦ let h : contains x out ≡ true = rw ((eq_iff x item).0 q) e in rw h refl
  | inr q ↦ rw q refl
]

-- An entry is in the merged list exactly if it was seen before or comes in.
dedupe_from-contains :
    (x : String) (out items : List String)
    → contains x (dedupe_from out items) ≡ (contains x out || contains x items)
unfolding dedupe_from
dedupe_from-contains x out [] = ground arith
dedupe_from-contains x out (item ∷ items) = elim (Bool-cases (contains item out)) [
  | inl e ↦ rw e (rw (dedupe_from-contains x out items) (seen_before x item out items e))
  | inr e ↦ rw e (
      rw (dedupe_from-contains x (out ++ item ∷ []) items)
        (rw (contains-append x out (item ∷ [])) (ground arith)))
]

dedupe_from-IsUnique : (out items : List String) → IsUnique out → IsUnique (dedupe_from out items)
unfolding dedupe_from
dedupe_from-IsUnique out [] u = u
dedupe_from-IsUnique out (item ∷ items) u = elim (Bool-cases (contains item out)) [
  | inl e ↦ rw e (dedupe_from-IsUnique out items u)
  | inr e ↦ rw e (dedupe_from-IsUnique (out ++ item ∷ []) items (IsUnique-append out item u e))
]

add_profile-IsUnique :
    (found : Option Profile) (merged : Bootstrap)
    → IsUnique merged.packages
    → IsUnique merged.runcmd
    → IsUnique (add_profile found merged).packages × IsUnique (add_profile found merged).runcmd
add_profile-IsUnique none merged u v = (u, v)
add_profile-IsUnique (some p) merged u v = (
  dedupe_from-IsUnique merged.packages p.packages u,
  dedupe_from-IsUnique merged.runcmd p.runcmd v,
)

merge_profiles-IsUnique :
    (table : List Profile) (names : List String) (merged : Bootstrap)
    → IsUnique merged.packages
    → IsUnique merged.runcmd
    → IsUnique (merge_profiles table names merged).packages
      × IsUnique (merge_profiles table names merged).runcmd
unfolding merge_profiles
merge_profiles-IsUnique table [] merged u v = (u, v)
merge_profiles-IsUnique table (name ∷ names) merged u v =
    let unique = add_profile-IsUnique (find_profile name table) merged u v in
    merge_profiles-IsUnique table names (add_profile (find_profile name table) merged) unique.0
      unique.1

-- Dropping repetitions keeps every entry, adds none, and leaves each once.
pub dedupe_keep_order-exact :
    (items : List String)
    → IsUnique (dedupe_keep_order items)
      × ((x : String) → contains x (dedupe_keep_order items) ≡ contains x items)
unfolding dedupe_keep_order
dedupe_keep_order-exact items =
    (dedupe_from-IsUnique [] items tt, λ x. dedupe_from-contains x [] items)

accepted :
    (n : ℕ) (known : Bool) (merged b : Bootstrap)
    → (if ltb max_profiles n then invalid else if not known then invalid else ok merged) ≡ ok b
    → (n ≤ max_profiles) × (known ≡ true)
accepted n true merged b h = ground arith
accepted n false merged b h = absurd (ground arith)

-- Profiles are merged exactly if they are at most five and all known, and then each package and each
-- command of the result stands once.
pub resolve_profiles_iff :
    (table : List Profile) (names : List String)
    → ((length names ≤ max_profiles) × (all_known table names ≡ true)) ↔ (
        (b : Bootstrap) × (resolve_profiles table names ≡ ok b)
        × IsUnique b.packages
        × IsUnique b.runcmd)
unfolding resolve_profiles all_known
resolve_profiles_iff table [] =
    (λ h. (record { packages = []; runcmd = [] }, refl, tt, tt), λ h. (omega arith, refl))
resolve_profiles_iff table (name ∷ names) = (
  λ h.
      let merged = merge_profiles table (name ∷ names) (record { packages = []; runcmd = [] }) in
      let unique =
        merge_profiles-IsUnique table (name ∷ names) (record { packages = []; runcmd = [] }) tt
          tt in
      let few : ltb max_profiles (length (name ∷ names)) ≡ false = ground (arith, h.0) in
      (merged, rw few (rw h.1 refl), unique.0, unique.1),
  λ h. accepted (length (name ∷ names)) (all_known table (name ∷ names)) _ h.0 h.1,
)
