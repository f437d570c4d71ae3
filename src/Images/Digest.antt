-- ===== src/Images/Digest.antt =====
-- Which digest boxerd/image_catalog.py expects of an artifact, and the signature behind it.
use boxer.Base.{
  String, Bool, true, false, not, Option, none, some, List, [], ◌∷◌, any, if◌then◌else◌,
}
use boxer.Ipc.{Error, Result, ok, err, ipc_error, exception, internal}
use boxer.Names.{Text}
use boxer.Profiles.{contains}
use boxer.Action.{pure, raise, lift, recover, ◌>>=◌, ◌>>◌}
use boxer.LeaseManager.{truthy}
use boxer.Images.{Entry, ExpectedDigest, SignaturePolicy, VerificationResult, Net, Manager}
use boxer.Images.Fetch.{on_net, validate_url, download}
use boxer.Images.Clearsigned.{extract_clearsigned_payload}
use boxer.Images.Manifest.{validate_hash_algorithm, parse_checksum_manifest}

-- `check_fingerprints` of boxerd/signature.py
unfoldable pub check_fingerprints : VerificationResult → List String → Bool
check_fingerprints result [] = true
check_fingerprints result (pin ∷ pins) = any (λ f. contains f (pin ∷ pins)) result.fingerprints

-- x or y
abbrev or_text : Option String → String → String
or_text x y = elim (truthy x) [ none ↦ y | some s ↦ s ]

-- The key that signed, which stands in the provenance.
abbrev signer : VerificationResult → Option String
signer result = elim result.fingerprints [ [] ↦ some "verified" | f ∷ _ ↦ some f ]

-- `_fail`: no signature, which is an error if one is required.
unfoldable pub unsigned : SignaturePolicy → Result (Option String)
unsigned policy = if policy.required then err (ipc_error internal) else ok none

-- A required payload has to be there; else the text is taken as it is.
abbrev or_raw : SignaturePolicy → Text → Result Text → Result Text
or_raw policy raw (ok payload) = ok payload
or_raw policy raw (err (ipc_error code)) = if policy.required then err (ipc_error code) else ok raw
or_raw policy raw (err (exception name)) = err (exception name)

abbrev payload_of : Option SignaturePolicy → Text → Result Text
payload_of none manifest = ok manifest
payload_of (some policy) manifest =
    if policy.clearsigned
    then or_raw policy manifest (extract_clearsigned_payload manifest)
    else ok manifest

module _ {Bytes World : Type 0} (net : Net Bytes World) where
  abbrev accept : SignaturePolicy → VerificationResult → Result (Option String)
  accept policy result =
      if not result.valid
      then unsigned policy
      else if not (check_fingerprints result policy.fingerprints)
      then unsigned policy
      else ok (signer result)

  abbrev pub detached :
      SignaturePolicy → String → Bytes → Option String → Manager Bytes World (Option String)
  detached policy keyring manifest none = lift (unsigned policy)
  detached policy keyring manifest (some signature_url) = do
    validate_url net signature_url
    signature ← download net signature_url
    result ← on_net net (net.verify_detached keyring signature manifest)
    lift (accept policy result)

  unfoldable pub with_keyring :
      SignaturePolicy → Bytes → Option String → Manager Bytes World (Option String)
  with_keyring policy manifest none = lift (unsigned policy)
  with_keyring policy manifest (some keyring) =
      if policy.clearsigned
      then (do
        result ← on_net net (net.verify_clearsigned keyring manifest)
        lift (accept policy result))
      else detached policy keyring manifest (truthy policy.signature_url)

  -- An `IPCError` of the key ring is passed on if a signature is required.
  abbrev pub keyring_failed : SignaturePolicy → Error → Manager Bytes World (Option String)
  keyring_failed policy (ipc_error code) =
      if policy.required then raise (ipc_error code) else pure none
  keyring_failed policy (exception name) = raise (exception name)

  abbrev keyring_of : SignaturePolicy → Manager Bytes World (Option String)
  keyring_of policy = do
    keyring ← on_net net (net.resolve_keyring_path policy.keyring)
    pure (some keyring)

  unfoldable pub verify_manifest_signature :
      SignaturePolicy → Bytes → Manager Bytes World (Option String)
  unfolding with_keyring
  verify_manifest_signature policy manifest = do
    keyring ← recover (keyring_of policy) (keyring_failed policy)
    with_keyring policy manifest keyring

  abbrev pub signature_of : Option SignaturePolicy → Bytes → Manager Bytes World (Option String)
  signature_of none manifest = pure none
  signature_of (some policy) manifest = verify_manifest_signature policy manifest

  abbrev requires_signature : Option SignaturePolicy → Bool
  requires_signature none = false
  requires_signature (some policy) = policy.required

  abbrev pub from_manifest : Entry → Option String → Manager Bytes World (Option ExpectedDigest)
  from_manifest entry none =
      if requires_signature entry.policy then raise (ipc_error internal) else pure none
  from_manifest entry (some checksum_url) = do
    algorithm ← lift (validate_hash_algorithm net.lower (or_text entry.checksum_algorithm "sha256"))
    validate_url net checksum_url
    manifest ← download net checksum_url
    signature ← signature_of entry.policy manifest
    text ← lift (payload_of entry.policy (net.decode manifest))
    digest ← lift (
        parse_checksum_manifest net.lower text
          (or_text entry.checksum_filename (net.file_name entry.url)) algorithm)
    pure (some (record { algorithm = algorithm; digest = digest; signature = signature }))

  -- The pin of the catalog, or the digest of the upstream manifest, if there is either.
  unfoldable pub expected_digest : Entry → Manager Bytes World (Option ExpectedDigest)
  unfolding verify_manifest_signature validate_hash_algorithm
  expected_digest entry = elim (truthy entry.sha256) [
    | some sha256 ↦
        pure (some (record { algorithm = "sha256"; digest = net.lower sha256; signature = none }))
    | none ↦ from_manifest entry (truthy entry.checksum_url)
  ]
