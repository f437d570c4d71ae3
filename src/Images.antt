-- ===== src/Images.antt =====
-- `ImageManager` of boxerd/image_catalog.py: the cache of images, where a file is named by the digest
-- of its content, and what is asked of the network. The reading of YAML, the
-- hashes, gpg and the network are arguments; temporary files and old single-file caches are left out.
pub mod Fetch
pub mod Lines
pub mod Clearsigned
pub mod Manifest
pub mod Hex
pub mod Armor
pub mod Digest
pub mod Artifacts
pub mod Paths
pub mod Verified
pub mod Served
pub mod Trusted
pub mod Pruning
pub mod Spared
use boxer.Base.{
  ℕ, zero, suc, String, Bool, true, false, not, ◌&&◌, Option, none, some, List, [], ◌∷◌, ◌++◌, take,
  select, is_some, ◌==◌, if◌then◌else◌,
}
use boxer.Ipc.{Result}
use boxer.Action.{Action}
use boxer.Names.{Text}
use boxer.LeaseManager.{truthy}

-- `SignaturePolicy` of boxerd/signature.py, as an entry gives it.
pub record SignaturePolicy : Type 0 where
  pub clearsigned : Bool
  pub required : Bool
  pub keyring : String
  pub fingerprints : List String
  pub signature_url : Option String

-- An entry of the catalog: of what `verification` and the entry itself say, what comes first.
pub record Entry : Type 0 where
  pub url : String
  pub is_iso : Bool
  pub refresh_policy : Option String
  pub sha256 : Option String
  pub checksum_url : Option String
  pub checksum_algorithm : Option String
  pub checksum_filename : Option String
  pub policy : Option SignaturePolicy

pub record ExpectedDigest : Type 0 where
  pub algorithm : String
  pub digest : String
  pub signature : Option String

-- The file of a digest: the template, the cache it is in, the algorithm and the digest.
pub record BlobPath : Type 0 where
  pub name : String
  pub is_iso : Bool
  pub algorithm : String
  pub digest : String

abbrev pub same : Bool → Bool → Bool
same true b = b
same false b = not b

abbrev pub path_eq : BlobPath → BlobPath → Bool
path_eq p q =
    p.name == q.name && same p.is_iso q.is_iso && p.algorithm == q.algorithm && p.digest == q.digest

pub record HistoryEntry : Type 0 where
  pub algorithm : String
  pub digest : String
  pub verified_at : ℕ

pub record Metadata : Type 0 where
  pub name : String
  pub is_iso : Bool
  pub refresh_policy : String
  pub url : String
  pub algorithm : String
  pub digest : String
  pub verified_at : ℕ
  pub signature : Option String
  pub history : List HistoryEntry

-- The files of the cache with their contents, and the metadata of each template.
pub record Cache (Bytes : Type 0) : Type 0 where
  pub blobs : List (BlobPath × Bytes)
  pub metadata : List Metadata

abbrev pub is_of : String → Bool → Metadata → Bool
is_of name is_iso m = m.name == name && same m.is_iso is_iso

abbrev pub find_metadata : String → Bool → List Metadata → Option Metadata
find_metadata name is_iso [] = none
find_metadata name is_iso (m ∷ ms) =
    let rest = find_metadata name is_iso ms in if is_of name is_iso m then some m else rest

abbrev pub path_of : String → Bool → Metadata → BlobPath
path_of name is_iso m = record {
  name = name;
  is_iso = is_iso;
  algorithm = m.algorithm;
  digest = m.digest;
}

abbrev history_of : Option Metadata → List HistoryEntry
history_of none = []
history_of (some m) = m.history

-- The digest in use stands first in the history, once; ten are kept.
abbrev pub next_history : ExpectedDigest → ℕ → List HistoryEntry → List HistoryEntry
next_history expected now history = take 10 (
    record { algorithm = expected.algorithm; digest = expected.digest; verified_at = now }
    ∷ select (λ h. not (h.algorithm == expected.algorithm && h.digest == expected.digest)) history)

module _ {Bytes : Type 0} where
  -- path.exists(), with the content
  abbrev pub find_blob : BlobPath → List (BlobPath × Bytes) → Option Bytes
  find_blob p [] = none
  find_blob p ((q, bytes) ∷ blobs) =
      let rest = find_blob p blobs in if path_eq p q then some bytes else rest

  -- tmp_path.rename(blob) replaces a file of that name.
  abbrev pub put_blob : BlobPath → Bytes → Cache Bytes → Cache Bytes
  put_blob p bytes cache = record cache {
    blobs = (p, bytes) ∷ select (λ b. not (path_eq p b.0)) cache.blobs;
  }

  abbrev pub read_metadata : String → Bool → Cache Bytes → Option Metadata
  read_metadata name is_iso cache = find_metadata name is_iso cache.metadata

  abbrev pub if_exists : BlobPath → Option Bytes → Option BlobPath
  if_exists p none = none
  if_exists p (some _) = some p

  abbrev pub existing : String → Bool → Option Metadata → Cache Bytes → Option BlobPath
  existing name is_iso none cache = none
  existing name is_iso (some m) cache =
      if m.algorithm == ""
      then none
      else if m.digest == ""
      then none
      else if_exists (path_of name is_iso m) (find_blob (path_of name is_iso m) cache.blobs)

  unfoldable pub current_blob : String → Bool → Cache Bytes → Option BlobPath
  current_blob name is_iso cache = existing name is_iso (read_metadata name is_iso cache) cache

  unfoldable pub set_current :
      String → Bool → String → String → ExpectedDigest → ℕ → Cache Bytes → Cache Bytes
  set_current name is_iso policy url expected now cache = record cache {
    metadata =
        record {
          name = name;
          is_iso = is_iso;
          refresh_policy = policy;
          url = url;
          algorithm = expected.algorithm;
          digest = expected.digest;
          verified_at = now;
          signature = expected.signature;
          history = next_history expected now (history_of (read_metadata name is_iso cache));
        }
        ∷ select (λ m. not (is_of name is_iso m)) cache.metadata;
  }

-- A response of the network: its status, and where it redirects to.
pub record Response : Type 0 where
  pub status_code : ℕ
  pub location : Option String

pub record VerificationResult : Type 0 where
  pub valid : Bool
  pub fingerprints : List String

-- What is not this file: URLs, names and addresses, HTTP, hashes, gpg, and the codec.
pub record Net (Bytes World : Type 0) : Type 0 where
  pub clock : World → ℕ
  pub scheme : String → String
  pub hostname : String → Option String
  pub urljoin : String → String → String
  pub file_name : String → String
  pub lower : String → String
  -- the addresses of a name, or the exception of `getaddrinfo`
  pub getaddrinfo : String → World → Option (List String) × World
  -- whether an address is in a blocked network; `none` for what is no address
  pub in_blocked_networks : String → Option Bool
  pub send : String → World → Result Response × World
  pub read_body : Response → World → Result Bytes × World
  pub hash : String → Bytes → String
  pub resolve_keyring_path : String → World → Result String × World
  pub verify_clearsigned : String → Bytes → World → Result VerificationResult × World
  pub verify_detached : String → Bytes → Bytes → World → Result VerificationResult × World
  -- bytes.decode("utf-8", "replace")
  pub decode : Bytes → Text

abbrev pub Manager : Type 0 → Type 0 → Type 0 → Type 0
Manager Bytes World A = Action (Cache Bytes × World) A
