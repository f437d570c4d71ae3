-- ===== src/Images/Trusted.antt =====
-- The path that boxerd/image_catalog.py answers is that of a file of its cache, whose content has the
-- digest of its name.
use boxer.Base.{
  String, Bool, true, false, not, ◌&&◌, ◌≡◌, refl, subst, Option, none, some, Option-cases, inl,
  inr, arith, if◌then◌else◌, ◌==◌,
}
use boxer.Ipc.{Error, Result, ok, err, ok_injective}
use boxer.Action.{Action, pure, raise, gets, modify, ◌>>=◌}
use boxer.Action.Returns.{Lands, Lands-bind}
use boxer.Images.{
  Entry, ExpectedDigest, BlobPath, Cache, Metadata, Net, find_blob, current_blob, set_current,
  existing, read_metadata, path_of,
}
use boxer.Images.Artifacts.{
  blob_path, point_at, store, download_to_blob, or_raise, or_download, known_digest, with_digest,
  refreshed, served, ensure_artifact, ensure,
}
use boxer.Images.Verified.{IsValid, find_blob-hash}
use boxer.Images.Paths.{path_eq_refl}
use boxer.Images.Served.{ensure-Keeps}

module _ {Bytes World : Type 0} (net : Net Bytes World) where
  -- The file is there.
  abbrev pub Held : BlobPath → Cache Bytes × World → Type 0
  Held p s = (bytes : Bytes) × (find_blob p s.0.blobs ≡ some bytes)

  existing-Held :
      (name : String) (is_iso : Bool) (m : Option Metadata) (cache : Cache Bytes) (p : BlobPath)
      → existing name is_iso m cache ≡ some p
      → (bytes : Bytes) × (find_blob p cache.blobs ≡ some bytes)
  existing-Held name is_iso none cache p h = absurd (ground arith)
  existing-Held name is_iso (some m) cache p h =
      elim (Option-cases (find_blob (path_of name is_iso m) cache.blobs)) [
        | inl e ↦ absurd (ground arith)
        | inr (bytes, e) ↦
            let same_path : path_of name is_iso m ≡ p = ground arith in
            (bytes, subst (λ q. find_blob q cache.blobs ≡ some bytes) same_path e)
      ]

  store-Held :
      (name : String) (is_iso : Bool) (policy url : String) (expected : ExpectedDigest)
      (bytes : Bytes) (s : Cache Bytes × World)
      → Held (blob_path name is_iso expected) (store net name is_iso policy url expected bytes s).1
  unfolding store point_at set_current gets modify pure ◌>>=◌
  store-Held name is_iso policy url expected bytes s =
      (bytes, rw (path_eq_refl (blob_path name is_iso expected)) refl)

  store-Lands :
      (name : String) (is_iso : Bool) (policy url : String) (expected : ExpectedDigest)
      (bytes : Bytes)
      → Lands Held (store net name is_iso policy url expected bytes)
  unfolding store point_at gets modify pure ◌>>=◌
  store-Lands name is_iso policy url expected bytes = record {
    at = λ s a e.
        subst (λ q. Held q (store net name is_iso policy url expected bytes s).1)
          (ok_injective (blob_path name is_iso expected) a e)
          (store-Held name is_iso policy url expected bytes s);
  }

  download_to_blob-Lands :
      (name : String) (is_iso : Bool) (policy url : String) (expected : Option ExpectedDigest)
      → Lands Held (download_to_blob net name is_iso url policy expected)
  unfolding download_to_blob
  download_to_blob-Lands name is_iso policy url expected =
      Lands-bind _ _ λ bytes. Lands-bind _ _ λ _. store-Lands name is_iso policy url _ bytes

  -- From this state, what is returned is the path of a file that is there.
  record Serves (s : Cache Bytes × World) (m : Action (Cache Bytes × World) BlobPath) : Type 0 where
    pub path : (p : BlobPath) → (m s).0 ≡ ok p → Held p (m s).1

  module _ (s : Cache Bytes × World) where
    Serves-Lands : (m : Action (Cache Bytes × World) BlobPath) → Lands Held m → Serves s m
    Serves-Lands m l = record { path = l.at s }

    Serves-pure : (p : BlobPath) → Held p s → Serves s (pure p)
    unfolding pure
    Serves-pure p h = record { path = λ a e. subst (λ q. Held q s) (ok_injective p a e) h }

    Serves-raise : (e : Error) → Serves s (raise e)
    unfolding raise
    Serves-raise e = record { path = λ a h. absurd cc }

    Serves-if :
        (test : Bool) (m n : Action (Cache Bytes × World) BlobPath)
        → Serves s m
        → Serves s n
        → Serves s (if test then m else n)
    Serves-if true m n sm sn = sm
    Serves-if false m n sm sn = sn

    Serves-gets :
        {A : Type 0} (read : Cache Bytes × World → A)
        (f : A → Action (Cache Bytes × World) BlobPath)
        → Serves s (f (read s))
        → Serves s (gets read >>= f)
    unfolding gets ◌>>=◌
    Serves-gets read f h = record { path = h.path }

    -- The current file of a template.
    IsCurrent : String → Entry → Option BlobPath → Type 0
    IsCurrent name entry found = (p : BlobPath) → found ≡ some p → Held p s

    current_blob-Held :
        (name : String) (entry : Entry) → IsCurrent name entry (current_blob name entry.is_iso s.0)
    unfolding current_blob IsCurrent
    current_blob-Held name entry p h =
        existing-Held name entry.is_iso (read_metadata name entry.is_iso s.0) s.0 p h

  module _ (name : String) (entry : Entry) (policy : String) (force : Bool)
      (s : Cache Bytes × World) where
    point_at-Serves :
        (expected : ExpectedDigest) (bytes : Bytes)
        → find_blob (blob_path name entry.is_iso expected) s.0.blobs ≡ some bytes
        → Serves s (point_at net name entry.is_iso policy entry.url expected)
    unfolding point_at set_current gets modify pure ◌>>=◌
    point_at-Serves expected bytes found = record {
      path = λ a e. (
        bytes,
        subst (λ q. find_blob q s.0.blobs ≡ some bytes)
            (ok_injective (blob_path name entry.is_iso expected) a e) found,
      );
    }

    known_digest-Serves :
        (expected : ExpectedDigest) (found : Option Bytes)
        → find_blob (blob_path name entry.is_iso expected) s.0.blobs ≡ found
        → Serves s (known_digest net name entry policy expected found)
    known_digest-Serves expected none e =
        Serves-Lands s _ (download_to_blob-Lands name entry.is_iso policy entry.url (some expected))
    known_digest-Serves expected (some bytes) e = point_at-Serves expected bytes e

    or_raise-Serves :
        (e : Error) (fallback : Option BlobPath)
        → IsCurrent s name entry fallback
        → Serves s (or_raise net fallback force e)
    unfolding IsCurrent
    or_raise-Serves e none k = Serves-raise s e
    or_raise-Serves e (some p) k = Serves-if s _ _ _ (Serves-pure s p (k p refl)) (Serves-raise s e)

    or_download-Serves :
        (current : Option BlobPath)
        → IsCurrent s name entry current
        → Serves s (or_download net name entry policy force current)
    unfolding IsCurrent
    or_download-Serves none k =
        Serves-Lands s _ (download_to_blob-Lands name entry.is_iso policy entry.url none)
    or_download-Serves (some p) k =
        Serves-if s (not force) _ _ (Serves-pure s p (k p refl))
          (Serves-Lands s _ (download_to_blob-Lands name entry.is_iso policy entry.url none))

    with_digest-Serves :
        (expected : Result (Option ExpectedDigest))
        → Serves s (with_digest net name entry policy force expected)
    unfolding with_digest
    with_digest-Serves (err e) =
        Serves-gets s _ _ (or_raise-Serves e _ (current_blob-Held s name entry))
    with_digest-Serves (ok (some expected)) =
        Serves-gets s _ _ (known_digest-Serves expected _ refl)
    with_digest-Serves (ok none) =
        Serves-if s (policy == "pinned") _ _ (Serves-raise s _)
          (Serves-gets s _ _ (or_download-Serves _ (current_blob-Held s name entry)))

  refreshed-Lands :
      (name : String) (entry : Entry) (policy : String) (force : Bool)
      → Lands Held (refreshed net name entry policy force)
  unfolding refreshed
  refreshed-Lands name entry policy force =
      Lands-bind _ _ λ expected. record {
        at = λ s. (with_digest-Serves name entry policy force s expected).path;
      }

  served-Serves :
      (name : String) (entry : Entry) (policy : String) (force : Bool) (s : Cache Bytes × World)
      (current : Option BlobPath)
      → IsCurrent s name entry current
      → Serves s (served net name entry policy force current)
  unfolding IsCurrent
  served-Serves name entry policy force s none k =
      Serves-Lands s _ (refreshed-Lands name entry policy force)
  served-Serves name entry policy force s (some p) k =
      Serves-if s (policy == "manual" && not force) _ _ (Serves-pure s p (k p refl))
        (Serves-Lands s _ (refreshed-Lands name entry policy force))

  ensure_artifact-Lands :
      (name : String) (entry : Entry) (force : Bool)
      → Lands Held (ensure_artifact net name entry force)
  unfolding ensure_artifact
  ensure_artifact-Lands name entry force = Lands-bind _ _ λ _. Lands-bind _ _ λ policy. record {
    at = λ s.
        (Serves-gets s _ _
          (served-Serves name entry policy force s _ (current_blob-Held s name entry))).path;
  }

  ensure-Lands :
      (catalog : String → Option Entry) (is_iso : Bool) (name : String) (force : Bool)
      → Lands Held (ensure net catalog is_iso name force)
  unfolding ensure
  ensure-Lands catalog is_iso name force =
      Lands-bind _ _ λ entry. Lands-bind _ _ λ _. ensure_artifact-Lands name entry force

  -- If every file of the cache has the digest of its name, and `ensure_image` or `ensure_iso` returns
  -- a path, that is the path of a file that is then in the cache, and its content has the digest of
  -- its name: a file whose content does not match is never served.
  pub ensure-trusted :
      (catalog : String → Option Entry) (is_iso : Bool) (name : String) (force : Bool)
      (cache : Cache Bytes) (world : World) (p : BlobPath)
      → IsValid net cache
      → (ensure net catalog is_iso name force (cache, world)).0 ≡ ok p
      → (bytes : Bytes) × (find_blob p
            (ensure net catalog is_iso name force (cache, world)).1.0.blobs
          ≡ some bytes)
        × (net.hash p.algorithm bytes ≡ p.digest)
  ensure-trusted catalog is_iso name force cache world p valid e =
      let kept = (ensure-Keeps net catalog is_iso name force).at (cache, world) valid in
      let (bytes, found) = (ensure-Lands catalog is_iso name force).at (cache, world) p e in
      (bytes, found, find_blob-hash net p bytes _ kept found)

  -- If every file of the cache has the digest of its name, so does every file after `ensure_image` or
  -- `ensure_iso`, whether it returns or raises, in a download or at any other point.
  pub ensure-IsValid :
      (catalog : String → Option Entry) (is_iso : Bool) (name : String) (force : Bool)
      (cache : Cache Bytes) (world : World)
      → IsValid net cache
      → IsValid net (ensure net catalog is_iso name force (cache, world)).1.0
  ensure-IsValid catalog is_iso name force cache world valid =
      (ensure-Keeps net catalog is_iso name force).at (cache, world) valid
