-- ===== src/Tests/Images.antt =====
-- The theorems on boxerd/image_catalog.py and boxerd/ipc_server.py at concrete inputs.
use boxer.Base.{ℕ, ◌+◌, String, true, false, ◌≡◌, refl, none, some, List, [], ◌∷◌, ◌++◌, map, ◌==◌}
use boxer.Ipc.{ok, err, exception}
use boxer.Json.{str, Fields, field, no_fields}
use boxer.Names.{Text, text}
use boxer.Action.{Action, pure, raise}
use boxer.Images.{Entry, BlobPath, Cache, Metadata, Net, Response, find_blob, current_blob}
use boxer.Images.Artifacts.{ensure}
use boxer.Images.Verified.{IsValid}
use boxer.Images.Trusted.{ensure-trusted, ensure-IsValid}
use boxer.Images.Manifest.{parse_checksum_manifest}
use boxer.Images.Hex.{IsDigestText, parse_checksum_manifest-IsDigest}
use boxer.Images.Clearsigned.{extract_clearsigned_payload}
use boxer.Images.Armor.{IsLine-literal, unlines, armor, extract-armor}
use boxer.Images.Pruning.{Disks}
use boxer.Server.{Registered, serve_loop}
use boxer.Server.Answers.{requests, serve_loop-answers}

-- A network that serves one image; a text is its own hash.
abbrev net : Net String ℕ
net = record {
  clock = λ world. world;
  scheme = λ url. "https";
  hostname = λ url. some "cloud.debian.org";
  urljoin = λ url location. location;
  file_name = λ url. "debian.qcow2";
  lower = λ s. s;
  getaddrinfo = λ name world. (some ("151.101.2.132" ∷ []), world);
  in_blocked_networks = λ ip. some false;
  send = λ url world. (ok (record { status_code = 200; location = none }), world + 1);
  read_body = λ response world. (ok "new", world);
  hash = λ algorithm bytes. bytes;
  resolve_keyring_path = λ name world. (ok "/keyrings/debian.gpg", world);
  verify_clearsigned = λ keyring bytes world. (err (exception "OSError"), world);
  verify_detached = λ keyring signature bytes world. (err (exception "OSError"), world);
  decode = text;
}

abbrev entry : Entry
entry = record {
  url = "https://cloud.debian.org/debian.qcow2";
  is_iso = false;
  refresh_policy = none;
  sha256 = some "new";
  checksum_url = none;
  checksum_algorithm = none;
  checksum_filename = none;
  policy = none;
}

abbrev old_path : BlobPath
old_path = record { name = "debian-12"; is_iso = false; algorithm = "sha256"; digest = "old" }

abbrev new_path : BlobPath
new_path = record old_path { digest = "new" }

-- The old image is cached.
abbrev cache : Cache String
cache = record {
  blobs = (old_path, "old") ∷ [];
  metadata =
      record {
        name = "debian-12";
        is_iso = false;
        refresh_policy = "latest";
        url = "https://cloud.debian.org/debian.qcow2";
        algorithm = "sha256";
        digest = "old";
        verified_at = 5;
        signature = none;
        history = [];
      }
      ∷ [];
}

ensure-trusted_example :
    (bytes : String) × (find_blob new_path
        (ensure net (λ name. some entry) false "debian-12" false (cache, 9)).1.0.blobs
      ≡ some bytes)
    × (bytes ≡ "new")
unfolding ensure boxer.Action.◌>>=◌ boxer.Images.Fetch.validate_url boxer.Images.Fetch.checked_url
    current_blob boxer.Images.Fetch.download
ensure-trusted_example =
    ensure-trusted net (λ name. some entry) false "debian-12" false cache 9 new_path (refl, tt) refl

ensure-IsValid_example :
    IsValid net (ensure net (λ name. some entry) false "debian-12" false (cache, 9)).1.0
ensure-IsValid_example =
    ensure-IsValid net (λ name. some entry) false "debian-12" false cache 9 (refl, tt)

abbrev sums : Text
sums =
    text "# SHA256SUMS"
    ++ (10 ∷ text "E3B0C44298FC1C149AFBF4C8996FB92427AE41E4649B934CA495991B7852B855 *debian.qcow2")

parse_checksum_manifest-IsDigest_example :
    IsDigestText "sha256" "e3b0c44298fc1c149afbf4c8996fb92427ae41e4649b934ca495991b7852b855"
unfolding parse_checksum_manifest boxer.Images.Manifest.validate_hash_algorithm
    boxer.Images.Manifest.of_line boxer.Images.Manifest.fedora_match boxer.Images.Lines.splitlines
    boxer.Images.Lines.path_name boxer.Names.Strings.string
parse_checksum_manifest-IsDigest_example =
    parse_checksum_manifest-IsDigest (λ s. s) sums "debian.qcow2" "sha256"
      "e3b0c44298fc1c149afbf4c8996fb92427ae41e4649b934ca495991b7852b855" refl

extract-armor_example :
    extract_clearsigned_payload (
      unlines (armor (text "Hash: SHA256" ∷ []) (text "-0  a" ∷ text "1  b" ∷ []) (text "iQ" ∷ [])))
    ≡ ok (text "-0  a" ++ (10 ∷ text "1  b") ++ (10 ∷ []))
extract-armor_example =
    extract-armor (text "Hash: SHA256" ∷ []) (text "-0  a" ∷ text "1  b" ∷ []) (text "iQ" ∷ [])
      ((IsLine-literal (text "Hash: SHA256") refl, refl), tt)
      ((IsLine-literal (text "-0  a") refl, refl), ((IsLine-literal (text "1  b") refl, refl), tt))
      (IsLine-literal (text "iQ") refl, tt)

abbrev disks : Disks
disks = record { in_use = λ p. p.digest == "old"; backing_known = true; mtime = λ p. 0 }

-- One method, which raises.
abbrev handlers : List (Registered ℕ String)
handlers = record { method = "vm.list"; handler = λ params. raise (exception "KeyError") } ∷ []

abbrev calls : List Fields
calls =
    field "id" (str "1") (field "method" (str "vm.list") no_fields)
    ∷ field "id" (str "2") (field "method" (str "vm.fly") no_fields)
    ∷ []

serve_loop-answers_example :
    map (λ r. r.id) (serve_loop handlers (requests calls) 0).0 ≡ str "1" ∷ str "2" ∷ []
serve_loop-answers_example = serve_loop-answers handlers calls 0 (tt, (tt, tt))
