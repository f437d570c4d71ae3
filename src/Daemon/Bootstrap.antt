-- ===== src/Daemon/Bootstrap.antt =====
-- `_bootstrap_from_params` of boxerd/daemon.py: the packages, commands, keys and files that a request
-- puts into a new machine.
pub mod Limits
pub mod Accepted
use boxer.Base.{
  ℕ, ◌+◌, ◌*◌, String, Bool, true, false, not, ◌&&◌, ◌||◌, Option, none, some, List, [], ◌∷◌, ◌++◌,
  map, length, any, select, leb, ltb, eqb, ◌==◌, if◌then◌else◌,
}
use boxer.Ipc.{Result, ok, err, ipc_error, invalid_params, require, refuse, ◌>>=◌, ◌>>◌, invalid}
use boxer.Names.{text, starts_with}
use boxer.Names.Patterns.{between, is_letter, is_digit, matches_rest, matches_class}
use boxer.Profiles.{
  Bootstrap, contains, profiles, max_profiles, resolve_profiles, dedupe_keep_order,
}
use boxer.Json.{Json, null, str, array, object, Fields, no_fields, items, get, holds, utf8_bytes}
use boxer.Daemon.Params.{field_or, string_list}

-- A file that cloud-init writes (boxerd/cloud_init.py).
pub record WriteFile : Type 0 where
  pub path : String
  pub content : String
  pub permissions : String
  pub owner : String

abbrev pub bytes : String → ℕ
bytes s = utf8_bytes (text s)

-- ^0[0-7]{3}$, where `$` also matches before a newline at the end
unfoldable pub is_mode : String → Bool
unfolding matches_rest
is_mode s = elim (text s) [
  | z ∷ a ∷ b ∷ c ∷ rest ↦
      eqb z b'0'
      && between b'0' b'7' a
      && between b'0' b'7' b
      && between b'0' b'7' c
      && matches_rest (λ _. false) 0 rest
  | _ ↦ false
]

-- `isinstance(value, str)` and a test of the text
abbrev pub text_that : (String → Bool) → Option Json → Result String
text_that p (some (str s)) = if p s then ok s else invalid
text_that p _ = invalid

abbrev pub or_text : String → Option Json → Option Json
or_text default none = some (str default)
or_text default (some value) = some value

abbrev pub is_path : String → Bool
is_path s = starts_with (text "/") (text s) && leb (length (text s)) 256

abbrev pub max_file_bytes : ℕ
max_file_bytes = 256 * 1024

abbrev pub max_total_file_bytes : ℕ
max_total_file_bytes = 1024 * 1024

unfoldable pub coerce_file : String → String → Json → Result WriteFile
unfolding is_mode
coerce_file permissions owner (object entry) = do
  path ← text_that is_path (get "path" entry)
  content ← text_that (λ s. leb (bytes s) max_file_bytes) (get "content" entry)
  mode ← text_that is_mode (or_text permissions (get "permissions" entry))
  user ← text_that (λ s. leb (length (text s)) 64) (or_text owner (get "owner" entry))
  ok (record { path = path; content = content; permissions = mode; owner = user })
coerce_file permissions owner _ = invalid

abbrev pub coerce_files : String → String → List Json → Result (List WriteFile)
coerce_files permissions owner [] = ok []
coerce_files permissions owner (value ∷ values) = do
  file ← coerce_file permissions owner value
  files ← coerce_files permissions owner values
  ok (file ∷ files)

unfoldable pub coerce_file_list : String → String → Option Json → Result (List WriteFile)
unfolding coerce_file
coerce_file_list permissions owner none = ok []
coerce_file_list permissions owner (some null) = ok []
coerce_file_list permissions owner (some (array values)) =
    coerce_files permissions owner (items values)
coerce_file_list permissions owner (some _) = invalid

-- sum(len(f.content.encode("utf-8")) for f in files)
abbrev pub total_bytes : List WriteFile → ℕ
total_bytes [] = 0
total_bytes (f ∷ files) = bytes f.content + total_bytes files

-- len(set(xs)) != len(xs)
abbrev pub repeats : List String → Bool
repeats [] = false
repeats (x ∷ xs) = contains x xs || repeats xs

abbrev pub paths : List WriteFile → List String
paths = map λ f. f.path

-- The files, and how many of them are secret.
unfoldable pub parse_file_injections : Fields → Fields → Result (List WriteFile × ℕ)
unfolding coerce_file_list
parse_file_injections params bootstrap = do
  regular ←
      coerce_file_list "0644" "root:root" (field_or "write_files" params "write_files" bootstrap)
  secrets ←
      coerce_file_list "0600" "boxer:boxer"
        (field_or "secret_files" params "secret_files" bootstrap)
  refuse (ltb 20 (length (regular ++ secrets))) (ipc_error invalid_params)
  refuse (ltb max_total_file_bytes (total_bytes (regular ++ secrets))) (ipc_error invalid_params)
  refuse (repeats (paths (regular ++ secrets))) (ipc_error invalid_params)
  ok (regular ++ secrets, length secrets)

-- params.get("bootstrap") or {}
abbrev pub bootstrap_object : Option Json → Result Fields
bootstrap_object none = ok no_fields
bootstrap_object (some (object fields)) = ok fields
bootstrap_object (some value) = if holds value then invalid else ok no_fields

-- ^[A-Za-z0-9][A-Za-z0-9+_.:-]{0,127}$
unfoldable pub is_package : String → Bool
unfolding matches_rest
is_package s =
    matches_class (λ c. is_letter c || is_digit c)
      (λ c.
        is_letter c
        || is_digit c
        || eqb c b'+'
        || eqb c b'_'
        || eqb c b'.'
        || eqb c b':'
        || eqb c b'-')
      127 (text s)

abbrev valid_prefixes : List String
valid_prefixes =
    "ssh-ed25519 " ∷ "ssh-rsa " ∷ "ecdsa-sha2-" ∷ "sk-ssh-ed25519@" ∷ "sk-ecdsa-sha2-" ∷ []

abbrev pub is_public_key : String → Bool
is_public_key key = any (λ p. starts_with (text p) (text key)) valid_prefixes

abbrev pub all : (String → Bool) → List String → Bool
all p xs = not (any (λ x. not (p x)) xs)

abbrev pub forget_user_data : String
forget_user_data =
    "find /var/lib/cloud/instances -maxdepth 2 -name user-data.txt -delete 2>/dev/null || true"

pub record BootstrapParams : Type 0 where
  pub packages : List String
  pub commands : List String
  pub ssh_public_keys : List String
  pub write_files : List WriteFile
  pub secret_count : ℕ
  pub profiles : List String

-- The file and the commands of the in-guest agent, if its profile is asked for and it is built.
abbrev pub add_agent :
    Option (WriteFile × List String) → List WriteFile × List String → List WriteFile × List String
add_agent none setup = setup
add_agent (some (agent_file, agent_commands)) (files, commands) =
    (files ++ agent_file ∷ [], dedupe_keep_order (commands ++ agent_commands))

abbrev pub add_cleanup : ℕ → List String → List String
add_cleanup secrets commands = if eqb secrets 0 then commands else commands ++ forget_user_data ∷ []

-- `boxerctl_injection()`, which looks for the built agent on the disk, is an argument.
unfoldable pub assembled :
    Option (WriteFile × List String)
    → List String
    → List String
    → List String
    → List String
    → List WriteFile
    → ℕ
    → BootstrapParams
assembled injection packages commands keys names files secrets =
    let setup =
      if contains "boxerctl" names
      then add_agent injection (files, commands)
      else (files, commands) in
    record {
      packages = packages;
      commands = add_cleanup secrets setup.1;
      ssh_public_keys = keys;
      write_files = setup.0;
      secret_count = secrets;
      profiles = names;
    }

unfoldable pub bootstrap_from_params :
    Option (WriteFile × List String) → Fields → Result BootstrapParams
unfolding string_list is_package resolve_profiles dedupe_keep_order parse_file_injections assembled
bootstrap_from_params injection params = do
  bootstrap ← bootstrap_object (get "bootstrap" params)
  packages ← string_list 50 128 (field_or "bootstrap_packages" params "packages" bootstrap)
  require (all is_package packages) (ipc_error invalid_params)
  commands ← string_list 20 2000 (field_or "bootstrap_commands" params "commands" bootstrap)
  keys ← string_list 10 4096 (field_or "ssh_public_keys" params "ssh_public_keys" bootstrap)
  require (all is_public_key keys) (ipc_error invalid_params)
  names ← string_list max_profiles 32 (field_or "profiles" params "profiles" bootstrap)
  resolved ← resolve_profiles profiles (select (λ n. not (n == "boxerctl")) names)
  refuse (ltb 80 (length (dedupe_keep_order (resolved.packages ++ packages))))
      (ipc_error invalid_params)
  files ← parse_file_injections params bootstrap
  ok (
      assembled injection (dedupe_keep_order (resolved.packages ++ packages))
        (dedupe_keep_order (resolved.runcmd ++ commands)) keys names files.0 files.1)
