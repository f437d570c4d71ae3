-- ===== src/Images/Served.antt =====
-- What `ensure_image` and `ensure_iso` of boxerd/image_catalog.py serve: a file of the cache with the
-- content that its name says.
use boxer.Base.{
  String, Bool, true, false, ◌≡◌, refl, sym, Option, none, some, All-select, eq_iff, arith,
}
use boxer.Ipc.{Error, Result, ok, err, refuse}
use boxer.Action.{Action, lift, ◌>>=◌}
use boxer.Action.Keeps.{
  Keeps, Keeps-bind, Keeps-pure, Keeps-raise, Keeps-gets, Keeps-modify, keeps_rules,
}
use boxer.Images.{Entry, ExpectedDigest, BlobPath, Cache, Net, set_current}
use boxer.Images.Artifacts.{
  resolved, mismatch, point_at, store, download_to_blob, attempt_digest, or_raise, or_download,
  known_digest, with_digest, refreshed, served, ensure_artifact, ensure,
}
use boxer.Images.Verified.{Ok, validate_url-Keeps, download-Keeps, expected_digest-Keeps}

module _ {Bytes World : Type 0} (net : Net Bytes World) where
  resolved-hash :
      (expected : Option ExpectedDigest) (bytes : Bytes)
      → mismatch net expected bytes ≡ false
      → net.hash (resolved net expected bytes).algorithm bytes
        ≡ (resolved net expected bytes).digest
  resolved-hash none bytes h = refl
  resolved-hash (some expected) bytes h =
      sym ((eq_iff expected.digest (net.hash expected.algorithm bytes)).0 (ground arith))

  point_at-Keeps :
      (name : String) (is_iso : Bool) (policy url : String) (expected : ExpectedDigest)
      → Keeps (Ok net) (point_at net name is_iso policy url expected)
  unfolding point_at set_current
  point_at-Keeps name is_iso policy url expected =
      Keeps-bind _ _ (Keeps-gets _) λ t. Keeps-bind _ _ (Keeps-modify _ λ s h. h) λ _. Keeps-pure _

  store-Keeps :
      (name : String) (is_iso : Bool) (policy url : String) (expected : ExpectedDigest)
      (bytes : Bytes)
      → net.hash expected.algorithm bytes ≡ expected.digest
      → Keeps (Ok net) (store net name is_iso policy url expected bytes)
  unfolding store
  store-Keeps name is_iso policy url expected bytes same_hash =
      Keeps-bind _ _ (Keeps-modify _ λ s h. (same_hash, All-select _ _ s.0.blobs h))
        λ _. point_at-Keeps name is_iso policy url expected

  refuse-then :
      {A : Type 0} (test : Bool) (e : Error) (rest : Action (Cache Bytes × World) A)
      → ((test ≡ false) → Keeps (Ok net) rest)
      → Keeps (Ok net) (lift (refuse test e) >>= λ _. rest)
  unfolding lift ◌>>=◌
  refuse-then true e rest k = record { at = λ s h. h }
  refuse-then false e rest k = k refl

  download_to_blob-Keeps :
      (name : String) (is_iso : Bool) (policy url : String) (expected : Option ExpectedDigest)
      → Keeps (Ok net) (download_to_blob net name is_iso url policy expected)
  unfolding download_to_blob
  download_to_blob-Keeps name is_iso policy url expected =
      Keeps-bind _ _ (download-Keeps net url) λ bytes.
        refuse-then (mismatch net expected bytes) _ _
          λ same. store-Keeps name is_iso policy url _ bytes (resolved-hash expected bytes same)

  attempt_digest-Keeps : (entry : Entry) → Keeps (Ok net) (attempt_digest net entry)
  unfolding attempt_digest
  attempt_digest-Keeps entry = record { at = λ s h. (expected_digest-Keeps net entry).at s h }

  or_raise-Keeps :
      (fallback : Option BlobPath) (force : Bool) (e : Error)
      → Keeps (Ok net) (or_raise net fallback force e)
  or_raise-Keeps none force e = Keeps-raise e
  or_raise-Keeps (some blob) force e = search keeps_rules depth 10

  or_download-Keeps :
      (name : String) (entry : Entry) (policy : String) (force : Bool) (current : Option BlobPath)
      → Keeps (Ok net) (or_download net name entry policy force current)
  or_download-Keeps name entry policy force none = download_to_blob-Keeps name _ policy _ none
  or_download-Keeps name entry policy force (some current) =
      search (keeps_rules, download_to_blob-Keeps) depth 10

  known_digest-Keeps :
      (name : String) (entry : Entry) (policy : String) (expected : ExpectedDigest)
      (found : Option Bytes)
      → Keeps (Ok net) (known_digest net name entry policy expected found)
  known_digest-Keeps name entry policy expected none = download_to_blob-Keeps name _ policy _ _
  known_digest-Keeps name entry policy expected (some bytes) = point_at-Keeps name _ policy _ _

  with_digest-Keeps :
      (name : String) (entry : Entry) (policy : String) (force : Bool)
      (expected : Result (Option ExpectedDigest))
      → Keeps (Ok net) (with_digest net name entry policy force expected)
  unfolding with_digest
  with_digest-Keeps name entry policy force (err e) =
      Keeps-bind _ _ (Keeps-gets _) λ fallback. or_raise-Keeps fallback force e
  with_digest-Keeps name entry policy force (ok (some expected)) =
      Keeps-bind _ _ (Keeps-gets _) λ found. known_digest-Keeps name entry policy expected found
  with_digest-Keeps name entry policy force (ok none) =
      search (keeps_rules, or_download-Keeps) depth 10

  refreshed-Keeps :
      (name : String) (entry : Entry) (policy : String) (force : Bool)
      → Keeps (Ok net) (refreshed net name entry policy force)
  unfolding refreshed
  refreshed-Keeps name entry policy force =
      Keeps-bind _ _ (attempt_digest-Keeps entry)
        λ expected. with_digest-Keeps name entry policy force expected

  served-Keeps :
      (name : String) (entry : Entry) (policy : String) (force : Bool) (current : Option BlobPath)
      → Keeps (Ok net) (served net name entry policy force current)
  served-Keeps name entry policy force none = refreshed-Keeps name entry policy force
  served-Keeps name entry policy force (some current) =
      search (keeps_rules, refreshed-Keeps) depth 10

  ensure_artifact-Keeps :
      (name : String) (entry : Entry) (force : Bool)
      → Keeps (Ok net) (ensure_artifact net name entry force)
  unfolding ensure_artifact
  ensure_artifact-Keeps name entry force =
      search (keeps_rules, validate_url-Keeps net, served-Keeps) depth 10

  pub ensure-Keeps :
      (catalog : String → Option Entry) (is_iso : Bool) (name : String) (force : Bool)
      → Keeps (Ok net) (ensure net catalog is_iso name force)
  unfolding ensure
  ensure-Keeps catalog is_iso name force = search (keeps_rules, ensure_artifact-Keeps) depth 10
