-- ===== src/Images/Artifacts.antt =====
-- `ensure_image` and `ensure_iso` of boxerd/image_catalog.py: the file of a template, from the cache or
-- from upstream.
use boxer.Base.{
  String, Bool, false, not, ◌&&◌, ◌||◌, Option, none, some, is_some, ◌==◌, if◌then◌else◌,
}
use boxer.Ipc.{Error, Result, ok, err, ipc_error, invalid_params, internal, refuse}
use boxer.Action.{pure, raise, lift, gets, modify, ◌>>=◌, ◌>>◌}
use boxer.LeaseManager.{truthy}
use boxer.Images.{
  Entry, ExpectedDigest, BlobPath, Net, Manager, find_blob, put_blob, current_blob, set_current,
}
use boxer.Images.Fetch.{validate_url, download, is_transient_fetch_error}
use boxer.Images.Digest.{expected_digest}

-- `_refresh_policy`
unfoldable pub refresh_policy : (String → String) → Entry → Result String
refresh_policy lower entry = elim entry.refresh_policy [
  | none ↦ ok (if is_some (truthy entry.sha256) then "pinned" else "latest")
  | some explicit ↦
      if lower explicit == "pinned" || lower explicit == "latest" || lower explicit == "manual"
      then ok (lower explicit)
      else err (ipc_error invalid_params)
]

-- `_blob_path` of a digest
abbrev pub blob_path : String → Bool → ExpectedDigest → BlobPath
blob_path name is_iso expected = record {
  name = name;
  is_iso = is_iso;
  algorithm = expected.algorithm;
  digest = expected.digest;
}

module _ {Bytes World : Type 0} (net : Net Bytes World) where
  -- What is known of a download: the digest that was expected, or the one it has.
  abbrev pub resolved : Option ExpectedDigest → Bytes → ExpectedDigest
  resolved (some expected) bytes = expected
  resolved none bytes = record {
    algorithm = "sha256";
    digest = net.hash "sha256" bytes;
    signature = none;
  }

  abbrev pub mismatch : Option ExpectedDigest → Bytes → Bool
  mismatch none bytes = false
  mismatch (some expected) bytes = not (expected.digest == net.hash expected.algorithm bytes)

  unfoldable pub point_at :
      String → Bool → String → String → ExpectedDigest → Manager Bytes World BlobPath
  point_at name is_iso policy url expected = do
    t ← gets (λ s. net.clock s.1)
    modify (λ s. (set_current name is_iso policy url expected t s.0, s.1))
    pure (blob_path name is_iso expected)

  -- A file is put into the cache under the digest of its content.
  unfoldable pub store :
      String → Bool → String → String → ExpectedDigest → Bytes → Manager Bytes World BlobPath
  unfolding point_at
  store name is_iso policy url expected bytes = do
    modify (λ s. (put_blob (blob_path name is_iso expected) bytes s.0, s.1))
    point_at name is_iso policy url expected

  unfoldable pub download_to_blob :
      String → Bool → String → String → Option ExpectedDigest → Manager Bytes World BlobPath
  unfolding store
  download_to_blob name is_iso url policy expected = do
    bytes ← download net url
    lift (refuse (mismatch expected bytes) (ipc_error internal))
    store name is_iso policy url (resolved expected bytes) bytes

  -- The digest, or the exception of looking for it.
  unfoldable pub attempt_digest : Entry → Manager Bytes World (Result (Option ExpectedDigest))
  unfolding expected_digest
  attempt_digest entry s = let (r, t) = expected_digest net entry s in (ok r, t)

  abbrev pub or_raise : Option BlobPath → Bool → Error → Manager Bytes World BlobPath
  or_raise none force e = raise e
  or_raise (some blob) force e =
      if not force && is_transient_fetch_error e then pure blob else raise e

  abbrev pub or_download :
      String → Entry → String → Bool → Option BlobPath → Manager Bytes World BlobPath
  or_download name entry policy force none =
      download_to_blob name entry.is_iso entry.url policy none
  or_download name entry policy force (some current) =
      if not force then pure current else download_to_blob name entry.is_iso entry.url policy none

  abbrev pub known_digest :
      String → Entry → String → ExpectedDigest → Option Bytes → Manager Bytes World BlobPath
  known_digest name entry policy expected (some bytes) =
      point_at name entry.is_iso policy entry.url expected
  known_digest name entry policy expected none =
      download_to_blob name entry.is_iso entry.url policy (some expected)

  unfoldable pub with_digest :
      String → Entry → String → Bool → Result (Option ExpectedDigest) → Manager Bytes World BlobPath
  unfolding download_to_blob is_transient_fetch_error
  with_digest name entry policy force (err e) = do
    fallback ← gets (λ s. current_blob name entry.is_iso s.0)
    or_raise fallback force e
  with_digest name entry policy force (ok (some expected)) = do
    blob ← gets (λ s. find_blob (blob_path name entry.is_iso expected) s.0.blobs)
    known_digest name entry policy expected blob
  with_digest name entry policy force (ok none) =
      if policy == "pinned" then raise (ipc_error invalid_params) else do
        current ← gets (λ s. current_blob name entry.is_iso s.0)
        or_download name entry policy force current

  unfoldable pub refreshed : String → Entry → String → Bool → Manager Bytes World BlobPath
  unfolding attempt_digest with_digest
  refreshed name entry policy force = do
    expected ← attempt_digest entry
    with_digest name entry policy force expected

  abbrev pub served :
      String → Entry → String → Bool → Option BlobPath → Manager Bytes World BlobPath
  served name entry policy force none = refreshed name entry policy force
  served name entry policy force (some current) =
      if policy == "manual" && not force then pure current else refreshed name entry policy force

  unfoldable pub ensure_artifact : String → Entry → Bool → Manager Bytes World BlobPath
  unfolding refreshed refresh_policy
  ensure_artifact name entry force = do
    validate_url net entry.url
    policy ← lift (refresh_policy net.lower entry)
    current ← gets (λ s. current_blob name entry.is_iso s.0)
    served name entry policy force current

  abbrev entry_of : Option Entry → Result Entry
  entry_of none = err (ipc_error invalid_params)
  entry_of (some entry) = ok entry

  -- `ensure_image` and `ensure_iso`, which refuse a template of the other kind.
  unfoldable pub ensure :
      (String → Option Entry) → Bool → String → Bool → Manager Bytes World BlobPath
  unfolding ensure_artifact
  ensure catalog is_iso name force = do
    entry ← lift (entry_of (catalog name))
    lift (refuse (if is_iso then not entry.is_iso else entry.is_iso) (ipc_error invalid_params))
    ensure_artifact name entry force
