-- ===== src/Db/Projects.antt =====
-- `upsert_project` of boxerd/db.py.
use Prim.Native.String.{◌++◌}
use boxer.Base.{
  ℕ, String, Bool, not, ◌&&◌, List, [], ◌∷◌, ◌++◌ as append, any, has, update_where, ◌==◌,
  if◌then◌else◌,
}
use boxer.Ipc.{Result, ok, err, exception}
use boxer.Db.Schema.{Database, ProjectRow}

-- A missing path is written as one of its own, so that `path` stays unique.
unfoldable pub project_path : String → String → String
project_path project_id path =
    if path == ""
    then "unknown:" ++ project_id
    else if path == "unknown"
    then "unknown:" ++ project_id
    else path

-- UNIQUE(path): another project has the path.
path_taken : String → String → List ProjectRow → Bool
path_taken project_id path = any λ p. not (p.id == project_id) && p.path == path

abbrev pub touched : String → ℕ → ProjectRow → ProjectRow
touched path now p = record p { path = path; last_seen = now }

unfoldable pub upserted : String → String → ℕ → List ProjectRow → List ProjectRow
upserted project_id path now rows =
    if has (λ p. p.id) project_id rows
    then update_where (λ p. p.id == project_id) (touched path now) rows
    else append rows
        (record { id = project_id; path = path; first_seen = now; last_seen = now } ∷ [])

unfoldable pub upsert_project :
    {Request : Type 0} → String → String → ℕ → Database Request → Result (Database Request)
unfolding path_taken
upsert_project project_id path now db =
    let path' = project_path project_id path in
    if path_taken project_id path' db.projects
    then err (exception "IntegrityError")
    else ok (record db { projects = upserted project_id path' now db.projects })
