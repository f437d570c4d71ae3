-- ===== src/Labs.antt =====
-- boxerd/labs.py: the lab recipes, and the request that a recipe becomes. Parameters are taken as read
-- from JSON with their types; descriptions and the texts of next steps are left out.
pub mod Metadata
use boxer.Base.{
  ℤ, pos, negsuc, ℕ, zero, suc, ◌+◌, ◌*◌, String, Bool, true, false, not, ◌&&◌, ◌||◌, Option, none,
  some, List, [], ◌∷◌, any, map, take, ltb, leb, eqb, ◌==◌, if◌then◌else◌,
}
use boxer.Ipc.{Result, ok, err, invalid, require, ipc_error, invalid_params, ◌>>=◌, ◌>>◌}
use boxer.Names.{Text, text, text_eq, dash, starts_with}
use boxer.Names.Strings.{string}
use boxer.Names.Patterns.{between, is_lower, is_digit, is_letter, matches_rest, matches_class}
use boxer.LeaseManager.{truthy}

pub record LabRecipe : Type 0 where
  pub name : String
  pub niche : String
  pub default_template : String
  pub profiles : List String
  pub headless : Bool
  pub ttl_minutes : ℕ
  pub wait_for : List String
  pub wait_timeout_seconds : ℕ
  pub wait_command : Option String
  pub cpu : Option ℕ
  pub ram_mb : Option ℕ
  pub disk_gb : Option ℕ

-- SIZE_OVERRIDES: the sizes that a size replaces.
pub record Sizes : Type 0 where
  pub cpu : Option ℕ
  pub ram_mb : Option ℕ
  pub disk_gb : Option ℕ

abbrev pub size_overrides : String → Option Sizes
size_overrides size =
    if size == "small"
    then some (record { cpu = some 1; ram_mb = some 1536; disk_gb = some 12 })
    else if size == "default"
    then some (record { cpu = none; ram_mb = none; disk_gb = none })
    else if size == "large"
    then some (record { cpu = some 4; ram_mb = some 6144; disk_gb = some 40 })
    else none

abbrev pub lab_recipes : List LabRecipe
lab_recipes =
    record {
      name = "linux-repro";
      niche = "reproduce a bug or run untrusted project commands away from the host";
      default_template = "ubuntu-24.04";
      profiles = "python" ∷ [];
      headless = true;
      ttl_minutes = 90;
      wait_for = "ssh" ∷ "cloud_init" ∷ [];
      wait_timeout_seconds = 300;
      wait_command = none;
      cpu = none;
      ram_mb = none;
      disk_gb = none;
    }
    ∷ record {
      name = "distro-smoke";
      niche = "check whether scripts or packages assume one Linux family";
      default_template = "debian-12";
      profiles = "python" ∷ [];
      headless = true;
      ttl_minutes = 75;
      wait_for = "ssh" ∷ "cloud_init" ∷ [];
      wait_timeout_seconds = 300;
      wait_command = none;
      cpu = none;
      ram_mb = none;
      disk_gb = none;
    }
    ∷ record {
      name = "docker-build";
      niche = "build or test containers without sharing the host Docker daemon";
      default_template = "ubuntu-24.04";
      profiles = "docker" ∷ [];
      headless = true;
      ttl_minutes = 120;
      wait_for = "ssh" ∷ "cloud_init" ∷ [];
      wait_timeout_seconds = 480;
      wait_command = some "docker version >/dev/null 2>&1";
      cpu = none;
      ram_mb = some 4096;
      disk_gb = some 30;
    }
    ∷ record {
      name = "web-ui";
      niche = "run browser automation away from the host browser profile";
      default_template = "ubuntu-24.04";
      profiles = "python" ∷ "browser" ∷ [];
      headless = true;
      ttl_minutes = 120;
      wait_for = "ssh" ∷ "cloud_init" ∷ [];
      wait_timeout_seconds = 300;
      wait_command = none;
      cpu = none;
      ram_mb = some 4096;
      disk_gb = some 25;
    }
    ∷ record {
      name = "headed-desktop";
      niche = "inspect GUI behavior or desktop installers through SPICE screenshots/input";
      default_template = "ubuntu-24.04";
      profiles = "desktop" ∷ [];
      headless = false;
      ttl_minutes = 120;
      wait_for = "cloud_init" ∷ [];
      wait_timeout_seconds = 600;
      wait_command = none;
      cpu = none;
      ram_mb = some 4096;
      disk_gb = some 30;
    }
    ∷ []

-- ^[a-z][a-z0-9-]{0,40}$
abbrev pub is_lab_name : Text → Bool
is_lab_name = matches_class is_lower (λ c. is_lower c || is_digit c || eqb c dash) 40

-- ^[A-Za-z0-9][A-Za-z0-9_.-]{0,48}$
abbrev pub is_purpose : Text → Bool
is_purpose =
    matches_class (λ c. is_letter c || is_digit c)
      (λ c. is_letter c || is_digit c || eqb c b'_' || eqb c b'.' || eqb c dash) 48

-- LAB_RECIPES[name]
unfoldable pub find_lab : String → List LabRecipe → Result LabRecipe
find_lab name [] = invalid
find_lab name (lab ∷ labs) =
    let rest = find_lab name labs in if name == lab.name then ok lab else rest

unfoldable pub get_lab : String → Result LabRecipe
unfolding find_lab matches_rest
get_lab name = do
  require (is_lab_name (text name)) (ipc_error invalid_params)
  find_lab name lab_recipes

abbrev Tags : Type 0
Tags = List (Text × Text)

-- tags[key] = value
unfoldable pub put : Text → Text → Tags → Tags
put key value [] = (key, value) ∷ []
put key value ((k, v) ∷ tags) =
    let rest = put key value tags in if text_eq k key then (k, value) ∷ tags else (k, v) ∷ rest

-- tags.get(key)
unfoldable pub get_tag : Text → Tags → Option Text
get_tag key [] = none
get_tag key ((k, v) ∷ tags) = let rest = get_tag key tags in if text_eq k key then some v else rest

abbrev pub boxer_dot : Text
boxer_dot = text "boxer."

abbrev pub lab_tags : LabRecipe → Tags
lab_tags lab =
    (text "boxer.lab", text lab.name)
    ∷ (text "boxer.niche", text lab.niche)
    ∷ (text "boxer.interface", text "lab")
    ∷ []

unfoldable pub add_tags : Tags → Tags → Result Tags
unfolding put
add_tags [] tags = ok tags
add_tags ((key, value) ∷ extra) tags =
    if starts_with boxer_dot key
    then invalid
    else add_tags extra (put (take 64 key) (take 256 value) tags)

-- The parameters of lab.request.
pub record LabParams : Type 0 where
  pub lab : String
  pub purpose : Option String
  pub template : Option String
  pub size : Option String
  pub wait : Bool
  pub ttl_minutes : Option ℤ
  pub tags : Tags

-- The conditions to wait for, the time and the command.
pub record Wait : Type 0 where
  pub wait_for : List String
  pub wait_timeout_seconds : ℕ
  pub wait_command : Option String

pub record LabRequest : Type 0 where
  pub template : String
  pub purpose : String
  pub headless : Bool
  pub ttl_minutes : ℕ
  pub profiles : List String
  pub tags : Tags
  pub wait : Option Wait
  pub cpu : Option ℕ
  pub ram_mb : Option ℕ
  pub disk_gb : Option ℕ

-- x or y
abbrev pub or_default : Option String → String → String
or_default x y = elim (truthy x) [ none ↦ y | some s ↦ s ]

-- `.lower()` on ASCII letters; the names of sizes have no others.
abbrev lower : Text → Text
lower s = map (λ c. if between b'A' b'Z' c then c + 32 else c) s

abbrev pub size_name : Option String → String
size_name none = "default"
size_name (some size) = string (lower (text size))

abbrev pub sizes_of : Option Sizes → Result Sizes
sizes_of none = invalid
sizes_of (some sizes) = ok sizes

-- int(params.get("ttl_minutes", ttl) or ttl), refused outside 10 to 24 * 60
abbrev pub checked_ttl : ℕ → Option ℤ → Result ℕ
checked_ttl ttl none = if ltb ttl 10 || ltb (24 * 60) ttl then invalid else ok ttl
checked_ttl ttl (some (pos zero)) = if ltb ttl 10 || ltb (24 * 60) ttl then invalid else ok ttl
checked_ttl ttl (some (pos (suc n))) =
    if ltb (suc n) 10 || ltb (24 * 60) (suc n) then invalid else ok (suc n)
checked_ttl ttl (some (negsuc n)) = invalid

-- The override, or what the recipe says.
abbrev overridden : Option ℕ → Option ℕ → Option ℕ
overridden (some n) recipe = some n
overridden none recipe = recipe

abbrev waits : LabRecipe → Option Wait
waits lab = some (record {
  wait_for = lab.wait_for;
  wait_timeout_seconds = lab.wait_timeout_seconds;
  wait_command = truthy lab.wait_command;
})

abbrev pub request_with : LabRecipe → LabParams → Sizes → ℕ → Tags → LabRequest
request_with lab params sizes ttl_minutes tags = record {
  template = or_default params.template lab.default_template;
  purpose = or_default params.purpose lab.name;
  headless = lab.headless;
  ttl_minutes = ttl_minutes;
  profiles = lab.profiles;
  tags = tags;
  wait = if params.wait then waits lab else none;
  cpu = overridden sizes.cpu lab.cpu;
  ram_mb = overridden sizes.ram_mb lab.ram_mb;
  disk_gb = overridden sizes.disk_gb lab.disk_gb;
}

-- The request of a recipe whose name was found.
unfoldable pub request_of : LabRecipe → LabParams → Result LabRequest
unfolding add_tags matches_rest
request_of lab params = do
  require (is_purpose (text (or_default params.purpose lab.name))) (ipc_error invalid_params)
  require (not (or_default params.template lab.default_template == "")) (ipc_error invalid_params)
  sizes ← sizes_of (size_overrides (size_name params.size))
  ttl_minutes ← checked_ttl lab.ttl_minutes params.ttl_minutes
  tags ← add_tags params.tags (lab_tags lab)
  ok (request_with lab params sizes ttl_minutes tags)

unfoldable pub build_lab_request : LabParams → Result (LabRecipe × LabRequest)
unfolding get_lab request_of
build_lab_request params = do
  lab ← get_lab params.lab
  request ← request_of lab params
  ok (lab, request)
