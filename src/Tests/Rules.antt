-- ===== src/Tests/Rules.antt =====
-- The theorems on leases, names, tracking, profiles and labs, at concrete data.
use boxer.Base.{
  pos, ℕ, ◌≤◌, Bool, true, false, ◌≡◌, ◌↔◌, refl, none, some, [], ◌∷◌, All, leb, arith, ◌&&◌,
}
use boxer.Ipc.{ok}
use boxer.Db.Vms.{list_vms, get_tags, vm_from_row}
use boxer.LeaseManager.{scan, scan_vm}
use boxer.LeaseManager.Lawful.{IsThere, Spared, scan-IsThere}
use boxer.LeaseManager.Valid.{scan_vm-valid}
use boxer.Db.Activity.{get_cleanup_action}
use boxer.Names.{text}
use boxer.Profiles.{Bootstrap, profiles, max_profiles, all_known, resolve_profiles}
use boxer.Profiles.Merge.{IsUnique, resolve_profiles_iff}
use boxer.Names.Strings.{string}
use boxer.Labs.{LabRecipe, LabParams, LabRequest, lab_tags, get_tag, request_of}
use boxer.Labs.Metadata.{request_of-metadata}
use boxer.Samples.{box, one_machine, services, lease_config}

-- The lease ended at 200, and the grace has not.
box-Spared : All (Spared lease_config "vm_a1b2c3" 250) (list_vms none one_machine)
unfolding list_vms get_tags vm_from_row
box-Spared = ((λ same. omega arith), tt)

scan-IsThere_example :
    IsThere "vm_a1b2c3" (scan lease_config services (λ t. t) (one_machine, 250)).1.0
scan-IsThere_example =
    scan-IsThere lease_config services (λ t. t) "vm_a1b2c3" one_machine 250 box-Spared refl

scan_vm-valid_example :
    ((scan_vm lease_config services 150 box (one_machine, 150)).0 ≡ ok tt)
    × ((scan_vm lease_config services 150 box (one_machine, 150)).1.1 ≡ 150)
    × (get_cleanup_action "vm_a1b2c3" (scan_vm lease_config services 150 box (one_machine, 150)).1.0
        ≡ none)
scan_vm-valid_example = scan_vm-valid lease_config services 150 box one_machine 150 (omega arith)

-- A lower-case letter.
abbrev is_letter : ℕ → Bool
is_letter c = leb b'a' c && leb c b'z'

resolve_profiles_iff_example :
    ((2 ≤ max_profiles) × (all_known profiles ("python" ∷ "node" ∷ []) ≡ true)) ↔ (
      (b : Bootstrap) × (resolve_profiles profiles ("python" ∷ "node" ∷ []) ≡ ok b)
      × IsUnique b.packages
      × IsUnique b.runcmd)
resolve_profiles_iff_example = resolve_profiles_iff profiles ("python" ∷ "node" ∷ [])

abbrev lab : LabRecipe
lab = record {
  name = "linux-repro";
  niche = "repro";
  default_template = "ubuntu-24.04";
  profiles = "python" ∷ [];
  headless = true;
  ttl_minutes = 90;
  wait_for = "ssh" ∷ [];
  wait_timeout_seconds = 300;
  wait_command = none;
  cpu = none;
  ram_mb = none;
  disk_gb = none;
}

abbrev params : LabParams
params = record {
  lab = "linux-repro";
  purpose = none;
  template = none;
  size = some "large";
  wait = false;
  ttl_minutes = some (pos 30);
  tags = (text "team", text "core") ∷ [];
}

abbrev request : LabRequest
request = record {
  template = "ubuntu-24.04";
  purpose = "linux-repro";
  headless = true;
  ttl_minutes = 30;
  profiles = "python" ∷ [];
  tags =
      (text "boxer.lab", text "linux-repro")
      ∷ (text "boxer.niche", text "repro")
      ∷ (text "boxer.interface", text "lab")
      ∷ (text "team", text "core")
      ∷ [];
  wait = none;
  cpu = some 4;
  ram_mb = some 6144;
  disk_gb = some 40;
}

requested : request_of lab params ≡ ok request
unfolding request_of string
requested = refl

request_of-metadata_example :
    (get_tag (text "boxer.lab") request.tags ≡ get_tag (text "boxer.lab") (lab_tags lab))
    × (10 ≤ 30)
    × (30 ≤ 1440)
request_of-metadata_example =
    request_of-metadata lab params request (text "boxer.lab") refl requested
