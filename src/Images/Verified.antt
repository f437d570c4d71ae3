-- ===== src/Images/Verified.antt =====
-- What boxerd/image_catalog.py serves is in its cache and has the content that its name says.
use boxer.Base.{
  ℕ, zero, suc, leb, ltb, String, true, ◌&&◌, ◌≡◌, sym, subst, Option, none, some, List, [], ◌∷◌,
  All, Bool-cases, Option-cases, inl, inr, arith,
}
use boxer.Ipc.{Error, Result, ipc_error, exception}
use boxer.Action.Keeps.{
  Keeps, Keeps-bind, Keeps-pure, Keeps-raise, Keeps-lift, Keeps-if, keeps_rules,
}
use boxer.LeaseManager.{truthy}
use boxer.Images.{Entry, BlobPath, Cache, Net, SignaturePolicy, find_blob, path_eq}
use boxer.Images.Paths.{path_eq-equal}
use boxer.Images.Fetch.{on_net, validate_url, stream_validated, download}
use boxer.Images.Digest.{
  detached, keyring_failed, signature_of, from_manifest, verify_manifest_signature, with_keyring,
  expected_digest,
}

module _ {Bytes World : Type 0} (net : Net Bytes World) where
  -- Every file of the cache has the digest of its name.
  abbrev pub IsValid : Cache Bytes → Type 0
  IsValid cache = All (λ b. net.hash b.0.algorithm b.1 ≡ b.0.digest) cache.blobs

  path_eq-hash :
      (p q : BlobPath) (bytes : Bytes)
      → path_eq p q ≡ true
      → net.hash q.algorithm bytes ≡ q.digest
      → net.hash p.algorithm bytes ≡ p.digest
  path_eq-hash p q bytes e h =
      subst (λ r. net.hash r.algorithm bytes ≡ r.digest) (sym (path_eq-equal p q e)) h

  pub find_blob-hash :
      (p : BlobPath) (bytes : Bytes) (blobs : List (BlobPath × Bytes))
      → All (λ b. net.hash b.0.algorithm b.1 ≡ b.0.digest) blobs
      → find_blob p blobs ≡ some bytes
      → net.hash p.algorithm bytes ≡ p.digest
  find_blob-hash p bytes [] h e = absurd (ground arith)
  find_blob-hash p bytes ((q, content) ∷ blobs) h e = elim (Bool-cases (path_eq p q)) [
    | inl t ↦
        path_eq-hash p q bytes t (subst (λ c. net.hash q.algorithm c ≡ q.digest) (ground arith) h.0)
    | inr t ↦ find_blob-hash p bytes blobs h.1 (ground arith)
  ]

  abbrev pub Ok : Cache Bytes × World → Type 0
  Ok s = IsValid s.0

  pub on_net-Keeps : {A : Type 0} (call : World → Result A × World) → Keeps Ok (on_net net call)
  unfolding on_net
  on_net-Keeps call = record { at = λ s h. h }

  pub validate_url-Keeps : (url : String) → Keeps Ok (validate_url net url)
  unfolding validate_url
  validate_url-Keeps url = on_net-Keeps _

  stream_validated-Keeps : (left : ℕ) (url : String) → Keeps Ok (stream_validated net left url)
  unfolding stream_validated
  stream_validated-Keeps zero url = Keeps-raise _
  stream_validated-Keeps (suc left) url = Keeps-bind _ _ (validate_url-Keeps url) λ _.
      Keeps-bind _ _ (on_net-Keeps (net.send url)) λ response.
        Keeps-if (leb 300 response.status_code && ltb response.status_code 400) _ _
          (λ _. Keeps-bind _ _ (Keeps-lift _) λ _. Keeps-pure response)
          (λ _.
            Keeps-bind _ _ (Keeps-lift _)
              λ location. stream_validated-Keeps left (net.urljoin url location))

  pub download-Keeps : (url : String) → Keeps Ok (download net url)
  unfolding download
  download-Keeps url = Keeps-bind _ _ (stream_validated-Keeps 6 url) λ response. on_net-Keeps _

  detached-Keeps :
      (policy : SignaturePolicy) (keyring : String) (manifest : Bytes) (url : Option String)
      → Keeps Ok (detached net policy keyring manifest url)
  detached-Keeps policy keyring manifest none = Keeps-lift _
  detached-Keeps policy keyring manifest (some url) =
      search (keeps_rules, validate_url-Keeps, download-Keeps, on_net-Keeps) depth 10

  with_keyring-Keeps :
      (policy : SignaturePolicy) (manifest : Bytes) (keyring : Option String)
      → Keeps Ok (with_keyring net policy manifest keyring)
  unfolding with_keyring
  with_keyring-Keeps policy manifest none = Keeps-lift _
  with_keyring-Keeps policy manifest (some keyring) =
      search (keeps_rules, detached-Keeps, on_net-Keeps) depth 10

  keyring_failed-Keeps :
      (policy : SignaturePolicy) (e : Error) → Keeps Ok (keyring_failed net policy e)
  keyring_failed-Keeps policy (ipc_error code) = search keeps_rules depth 10
  keyring_failed-Keeps policy (exception name) = Keeps-raise _

  signature_of-Keeps :
      (policy : Option SignaturePolicy) (manifest : Bytes)
      → Keeps Ok (signature_of net policy manifest)
  unfolding verify_manifest_signature
  signature_of-Keeps none manifest = Keeps-pure none
  signature_of-Keeps (some policy) manifest =
      search (keeps_rules, on_net-Keeps, keyring_failed-Keeps, with_keyring-Keeps) depth 10

  from_manifest-Keeps :
      (entry : Entry) (url : Option String) → Keeps Ok (from_manifest net entry url)
  from_manifest-Keeps entry none = search keeps_rules depth 10
  from_manifest-Keeps entry (some url) =
      search (keeps_rules, validate_url-Keeps, download-Keeps, signature_of-Keeps) depth 20

  pub expected_digest-Keeps : (entry : Entry) → Keeps Ok (expected_digest net entry)
  unfolding expected_digest
  expected_digest-Keeps entry = elim (Option-cases (truthy entry.sha256)) [
    | inl e ↦ rw (e, expected_digest) (from_manifest-Keeps entry _)
    | inr (pin, e) ↦ rw (e, expected_digest) (Keeps-pure _)
  ]
