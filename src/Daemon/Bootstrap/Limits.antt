-- ===== src/Daemon/Bootstrap/Limits.antt =====
-- The limits of what boxerd/daemon.py accepts for a new machine.
use boxer.Base.{
  ℕ, ◌≤◌, String, Bool, true, false, ◌≡◌, leb→le, ltb_false→le, Option, none, some, List, [], ◌∷◌,
  ◌++◌, length, All, All-append, arith, leb,
}
use boxer.Ipc.{ok}
use boxer.Ipc.Yields.{Yields, Yields-ok, Yields-err, Yields-bind, Yields-refuse}
use boxer.Names.{text}
use boxer.Json.{Json, null, boolean, number, str, array, object, Fields, items, get}
use boxer.Profiles.Merge.{IsUnique}
use boxer.Daemon.Params.{field_or}
use boxer.Daemon.Bootstrap.{
  WriteFile, bytes, is_mode, is_path, max_file_bytes, max_total_file_bytes, coerce_file,
  coerce_files, coerce_file_list, total_bytes, repeats, paths, text_that, or_text,
  parse_file_injections,
}

text_that-Yields :
    (p : String → Bool) (value : Option Json) → Yields (λ s. p s ≡ true) (text_that p value)
text_that-Yields p (some (str t)) = record { result = λ s h. ground arith }
text_that-Yields p none = Yields-err _
text_that-Yields p (some null) = Yields-err _
text_that-Yields p (some (boolean b)) = Yields-err _
text_that-Yields p (some (number n)) = Yields-err _
text_that-Yields p (some (array xs)) = Yields-err _
text_that-Yields p (some (object xs)) = Yields-err _

-- An absolute path of at most 256 characters, at most 256 KiB, an owner of at most 64 characters.
pub record IsGuestFile (f : WriteFile) : Type 0 where
  pub path : is_path f.path ≡ true
  pub size : bytes f.content ≤ max_file_bytes
  pub mode : is_mode f.permissions ≡ true
  pub owner : length (text f.owner) ≤ 64

coerce_file-IsGuestFile :
    (permissions owner : String) (value : Json)
    → Yields IsGuestFile (coerce_file permissions owner value)
unfolding coerce_file
coerce_file-IsGuestFile permissions owner (object entry) =
    Yields-bind _ _ (text_that-Yields is_path (get "path" entry)) λ path path_ok.
      Yields-bind _ _ (text_that-Yields (λ s. leb (bytes s) max_file_bytes) (get "content" entry))
        λ content content_ok.
          Yields-bind _ _ (text_that-Yields is_mode (or_text permissions (get "permissions" entry)))
            λ mode mode_ok.
              Yields-bind _ _
                (text_that-Yields (λ s. leb (length (text s)) 64)
                  (or_text owner (get "owner" entry)))
                λ user user_ok. Yields-ok _ (record {
                  path = path_ok;
                  size = leb→le _ _ content_ok;
                  mode = mode_ok;
                  owner = leb→le _ _ user_ok;
                })
coerce_file-IsGuestFile permissions owner null = Yields-err _
coerce_file-IsGuestFile permissions owner (boolean _) = Yields-err _
coerce_file-IsGuestFile permissions owner (number _) = Yields-err _
coerce_file-IsGuestFile permissions owner (str _) = Yields-err _
coerce_file-IsGuestFile permissions owner (array _) = Yields-err _

coerce_files-IsGuestFile :
    (permissions owner : String) (values : List Json)
    → Yields (All IsGuestFile) (coerce_files permissions owner values)
coerce_files-IsGuestFile permissions owner [] = Yields-ok [] tt
coerce_files-IsGuestFile permissions owner (value ∷ values) =
    Yields-bind _ _ (coerce_file-IsGuestFile permissions owner value) λ file file_ok.
      Yields-bind _ _ (coerce_files-IsGuestFile permissions owner values)
        λ rest rest_ok. Yields-ok _ (file_ok, rest_ok)

coerce_file_list-IsGuestFile :
    (permissions owner : String) (value : Option Json)
    → Yields (All IsGuestFile) (coerce_file_list permissions owner value)
unfolding coerce_file_list
coerce_file_list-IsGuestFile permissions owner none = Yields-ok [] tt
coerce_file_list-IsGuestFile permissions owner (some null) = Yields-ok [] tt
coerce_file_list-IsGuestFile permissions owner (some (array values)) =
    coerce_files-IsGuestFile permissions owner (items values)
coerce_file_list-IsGuestFile permissions owner (some (boolean _)) = Yields-err _
coerce_file_list-IsGuestFile permissions owner (some (number _)) = Yields-err _
coerce_file_list-IsGuestFile permissions owner (some (str _)) = Yields-err _
coerce_file_list-IsGuestFile permissions owner (some (object _)) = Yields-err _

repeats-IsUnique : (xs : List String) → repeats xs ≡ false → IsUnique xs
repeats-IsUnique [] h = tt
repeats-IsUnique (x ∷ xs) h = (ground arith, repeats-IsUnique xs (ground arith))

-- The files of a request that is accepted: at most 20, of 1 MiB together, on paths of their own.
pub record WithinLimits (files : List WriteFile) : Type 0 where
  pub each : All IsGuestFile files
  pub count : length files ≤ 20
  pub total : total_bytes files ≤ max_total_file_bytes
  pub unique : IsUnique (paths files)

pub parse_file_injections-Yields :
    (params bootstrap : Fields)
    → Yields (λ parsed. WithinLimits parsed.0) (parse_file_injections params bootstrap)
unfolding parse_file_injections
parse_file_injections-Yields params bootstrap =
    let regular_list = field_or "write_files" params "write_files" bootstrap in
    let secret_list = field_or "secret_files" params "secret_files" bootstrap in
    Yields-bind _ _ (coerce_file_list-IsGuestFile "0644" "root:root" regular_list) λ regular files₁.
      Yields-bind _ _ (coerce_file_list-IsGuestFile "0600" "boxer:boxer" secret_list)
        λ secrets files₂. Yields-refuse _ _ _ λ few. Yields-refuse _ _ _ λ small.
          Yields-refuse _ _ _ λ apart. Yields-ok _ (record {
            each = All-append IsGuestFile regular secrets files₁ files₂;
            count = ltb_false→le 20 (length (regular ++ secrets)) few;
            total = ltb_false→le max_total_file_bytes (total_bytes (regular ++ secrets)) small;
            unique = repeats-IsUnique (paths (regular ++ secrets)) apart;
          })

-- The injected files of a request that is accepted are at most 20 and together at most 1 MiB, no
-- two have one path, and each has an absolute path of at most 256 characters, at most 256 KiB of
-- content in UTF-8, a mode of the expected form and an owner of at most 64 characters.
pub parse_file_injections-WithinLimits :
    (params bootstrap : Fields) (files : List WriteFile) (secrets : ℕ)
    → parse_file_injections params bootstrap ≡ ok (files, secrets)
    → WithinLimits files
parse_file_injections-WithinLimits params bootstrap files secrets accepted =
    (parse_file_injections-Yields params bootstrap).result (files, secrets) accepted
