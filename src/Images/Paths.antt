-- ===== src/Images/Paths.antt =====
-- The equality of the paths of boxerd/image_catalog.py.
use boxer.Base.{Bool, true, false, ◌≡◌, refl, eq_iff, eq_refl, arith}
use boxer.Images.{BlobPath, path_eq, same}

same_refl : (b : Bool) → same b b ≡ true
same_refl true = refl
same_refl false = refl

pub same-equal : (a b : Bool) → same a b ≡ true → a ≡ b
same-equal true true h = refl
same-equal true false h = absurd (ground arith)
same-equal false true h = absurd (ground arith)
same-equal false false h = refl

pub path_eq_refl : (p : BlobPath) → path_eq p p ≡ true
path_eq_refl p =
    ground (arith, eq_refl p.name, eq_refl p.algorithm, eq_refl p.digest, same_refl p.is_iso)

-- Equal paths are one path.
pub path_eq-equal : (p q : BlobPath) → path_eq p q ≡ true → p ≡ q
path_eq-equal p q e =
    let names = (eq_iff p.name q.name).0 (ground arith) in
    let kinds = same-equal p.is_iso q.is_iso (ground arith) in
    let algorithms = (eq_iff p.algorithm q.algorithm).0 (ground arith) in
    let digests = (eq_iff p.digest q.digest).0 (ground arith) in cc
