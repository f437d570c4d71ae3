-- ===== src/Labs/Metadata.antt =====
-- What a caller of boxerd/labs.py cannot change: the metadata of the lab, and the bounds of its life.
use boxer.Base.{
  ℤ, pos, negsuc, ℕ, zero, suc, ◌≤◌, true, false, not, ◌≡◌, refl, ◌∙◌, Option, none, some, List, [],
  ◌∷◌, take, length, Bool-cases, inl, inr, arith, ◌==◌,
}
use boxer.Ipc.{Result, ok, err, require, ipc_error, invalid_params, ◌>>=◌}
use boxer.Names.{Text, text, text_eq, starts_with}
use boxer.Labs.{
  LabRecipe, LabParams, LabRequest, boxer_dot, lab_tags, put, get_tag, add_tags, checked_ttl,
  request_of, Sizes, request_with, is_purpose, or_default, sizes_of, size_overrides, size_name,
}

text_eq_refl : (s : Text) → text_eq s s ≡ true
text_eq_refl [] = refl
text_eq_refl (c ∷ s) = ground (arith, text_eq_refl s)

text_eq_trans : (s t u : Text) → text_eq s t ≡ true → text_eq s u ≡ text_eq t u
text_eq_trans [] [] u h = refl
text_eq_trans [] (d ∷ t) u h = absurd (ground arith)
text_eq_trans (c ∷ s) [] u h = absurd (ground arith)
text_eq_trans (c ∷ s) (d ∷ t) [] h = refl
text_eq_trans (c ∷ s) (d ∷ t) (e ∷ u) h = ground (arith, text_eq_trans s t u)

-- Writing one key leaves the others.
get_tag-put :
    (key other value : Text) (tags : List (Text × Text))
    → text_eq key other ≡ false
    → get_tag other (put key value tags) ≡ get_tag other tags
unfolding get_tag put
get_tag-put key other value [] apart = rw apart refl
get_tag-put key other value ((k, v) ∷ tags) apart = elim (Bool-cases (text_eq k key)) [
  | inl e ↦
      let q : text_eq k other ≡ false = text_eq_trans k key other e ∙ apart in rw e (rw q refl)
  | inr e ↦ rw e (elim (Bool-cases (text_eq k other)) [
    | inl q ↦ rw q refl
    | inr q ↦ rw q (get_tag-put key other value tags apart)
  ])
]

-- A text that starts with a prefix is none that, cut to a length over the prefix's, does not.
starts_with-apart :
    (p key other : Text) (n : ℕ)
    → starts_with p key ≡ false
    → starts_with p other ≡ true
    → length p ≤ n
    → text_eq (take n key) other ≡ false
starts_with-apart [] key other n h k l = absurd (ground arith)
starts_with-apart (c ∷ p) [] [] n h k l = absurd (ground arith)
starts_with-apart (c ∷ p) (x ∷ key) [] n h k l = absurd (ground arith)
starts_with-apart (c ∷ p) [] (y ∷ other) zero h k l = refl
starts_with-apart (c ∷ p) [] (y ∷ other) (suc n) h k l = refl
starts_with-apart (c ∷ p) (x ∷ key) (y ∷ other) zero h k l = refl
starts_with-apart (c ∷ p) (x ∷ key) (y ∷ other) (suc n) h k l =
    ground (arith, starts_with-apart p key other n)

add_tags-keeps :
    (other : Text) (extra tags tags' : List (Text × Text))
    → starts_with boxer_dot other ≡ true
    → add_tags extra tags ≡ ok tags'
    → get_tag other tags' ≡ get_tag other tags
unfolding add_tags
add_tags-keeps other [] tags tags' reserved h = ground arith
add_tags-keeps other ((key, value) ∷ extra) tags tags' reserved h =
    elim (Bool-cases (starts_with boxer_dot key)) [
      | inl e ↦ absurd (ground arith)
      | inr e ↦
          add_tags-keeps other extra (put (take 64 key) (take 256 value) tags) tags' reserved
            (ground arith)
          ∙ get_tag-put (take 64 key) other (take 256 value) tags
              (starts_with-apart boxer_dot key other 64 e reserved (omega arith))
    ]

checked_ttl-bounds :
    (ttl n : ℕ) (asked : Option ℤ) → checked_ttl ttl asked ≡ ok n → (10 ≤ n) × (n ≤ 1440)
checked_ttl-bounds ttl n none h = ground arith
checked_ttl-bounds ttl n (some (pos zero)) h = ground arith
checked_ttl-bounds ttl n (some (pos (suc m))) h = ground arith
checked_ttl-bounds ttl n (some (negsuc m)) h = absurd (ground arith)

-- The time and the tags of an accepted request are those of its checks.
accepted-parts :
    (lab : LabRecipe) (params : LabParams) (request : LabRequest)
    (purpose template : Result (Unit {0})) (sizes : Result Sizes) (ttl : Result ℕ)
    (tags : Result (List (Text × Text)))
    → (purpose >>= λ _. template >>= λ _.
        sizes >>= λ s. ttl >>= λ n. tags >>= λ t. ok (request_with lab params s n t))
      ≡ ok request
    → (ttl ≡ ok request.ttl_minutes) × (tags ≡ ok request.tags)
accepted-parts lab params request (err e) g s n t h = absurd (ground arith)
accepted-parts lab params request (ok u) (err e) s n t h = absurd (ground arith)
accepted-parts lab params request (ok u) (ok v) (err e) n t h = absurd (ground arith)
accepted-parts lab params request (ok u) (ok v) (ok s) (err e) t h = absurd (ground arith)
accepted-parts lab params request (ok u) (ok v) (ok s) (ok n) (err e) h = absurd (ground arith)
accepted-parts lab params request (ok u) (ok v) (ok s) (ok n) (ok t) h = ground arith

-- Whatever tags a caller adds, an accepted request carries under each reserved key, one that starts
-- with "boxer.", what the recipe says; and its life is between ten minutes and a day.
pub request_of-metadata :
    (lab : LabRecipe) (params : LabParams) (request : LabRequest) (key : Text)
    → starts_with boxer_dot key ≡ true
    → request_of lab params ≡ ok request
    → (get_tag key request.tags ≡ get_tag key (lab_tags lab))
      × (10 ≤ request.ttl_minutes)
      × (request.ttl_minutes ≤ 1440)
unfolding request_of
request_of-metadata lab params request key reserved h =
    let parts =
      accepted-parts lab params request
        (require (is_purpose (text (or_default params.purpose lab.name)))
          (ipc_error invalid_params))
        (require (not (or_default params.template lab.default_template == ""))
          (ipc_error invalid_params))
        (sizes_of (size_overrides (size_name params.size))) _ _ h in
    let bounds =
      checked_ttl-bounds lab.ttl_minutes request.ttl_minutes params.ttl_minutes parts.0 in
    (
      add_tags-keeps key params.tags (lab_tags lab) request.tags reserved parts.1,
      bounds.0,
      bounds.1,
    )
