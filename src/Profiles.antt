-- ===== src/Profiles.antt =====
-- boxerd/profiles.py: the named bootstrap profiles, and `_dedupe_keep_order` of boxerd/daemon.py.
pub mod Merge
use boxer.Base.{
  ℕ, String, Bool, true, false, not, Option, none, some, List, [], ◌∷◌, ◌++◌, length, any, ltb,
  ◌==◌, if◌then◌else◌,
}
use boxer.Ipc.{Result, ok, err, ipc_error, invalid_params, invalid}

pub record Profile : Type 0 where
  pub name : String
  pub packages : List String
  pub runcmd : List String

-- The descriptions are left out.
abbrev pub profiles : List Profile
profiles =
    record {
      name = "python";
      packages = "python3" ∷ "python3-pip" ∷ "python3-venv" ∷ "build-essential" ∷ "git" ∷ [];
      runcmd = [];
    }
    ∷ record {
      name = "node";
      packages = "nodejs" ∷ "npm" ∷ "git" ∷ [];
      runcmd = "corepack enable || true" ∷ [];
    }
    ∷ record {
      name = "docker";
      packages = "docker.io" ∷ [];
      runcmd = "systemctl enable --now docker || true" ∷ "usermod -aG docker boxer || true" ∷ [];
    }
    ∷ record {
      name = "browser";
      packages = "chromium" ∷ "xvfb" ∷ "fonts-liberation" ∷ "ca-certificates" ∷ [];
      runcmd = [];
    }
    ∷ record {
      name = "desktop";
      packages = "xfce4" ∷ "xfce4-goodies" ∷ "lightdm" ∷ [];
      runcmd = "systemctl set-default graphical.target || true" ∷ [];
    }
    ∷ []

abbrev pub max_profiles : ℕ
max_profiles = 5

-- x in seen
abbrev pub contains : String → List String → Bool
contains x = any λ y. x == y

-- `_dedupe_keep_order`: `out` holds what was seen, the latest last.
unfoldable pub dedupe_from : List String → List String → List String
dedupe_from out [] = out
dedupe_from out (item ∷ items) =
    dedupe_from (if contains item out then out else out ++ item ∷ []) items

unfoldable pub dedupe_keep_order : List String → List String
unfolding dedupe_from
dedupe_keep_order items = dedupe_from [] items

-- PROFILES.get(name), in a table of profiles
unfoldable pub find_profile : String → List Profile → Option Profile
find_profile name [] = none
find_profile name (p ∷ table) =
    let rest = find_profile name table in if name == p.name then some p else rest

-- Every name is that of a profile.
unfoldable pub all_known : List Profile → List String → Bool
unfolding find_profile
all_known table [] = true
all_known table (name ∷ names) =
    let rest = all_known table names in
    elim (find_profile name table) [ none ↦ false | some p ↦ rest ]

pub record Bootstrap : Type 0 where
  pub packages : List String
  pub runcmd : List String

abbrev pub add_profile : Option Profile → Bootstrap → Bootstrap
add_profile none merged = merged
add_profile (some p) merged = record {
  packages = dedupe_from merged.packages p.packages;
  runcmd = dedupe_from merged.runcmd p.runcmd;
}

-- The loop over the names, which are known by then.
unfoldable pub merge_profiles : List Profile → List String → Bootstrap → Bootstrap
unfolding find_profile dedupe_from
merge_profiles table [] merged = merged
merge_profiles table (name ∷ names) merged =
    merge_profiles table names (add_profile (find_profile name table) merged)

unfoldable pub resolve_profiles : List Profile → List String → Result Bootstrap
unfolding all_known merge_profiles
resolve_profiles table [] = ok (record { packages = []; runcmd = [] })
resolve_profiles table (name ∷ names) =
    if ltb max_profiles (length (name ∷ names))
    then invalid
    else if not (all_known table (name ∷ names))
    then invalid
    else ok (merge_profiles table (name ∷ names) (record { packages = []; runcmd = [] }))
