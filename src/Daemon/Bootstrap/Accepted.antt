-- ===== src/Daemon/Bootstrap/Accepted.antt =====
-- What is known of a bootstrap that `_bootstrap_from_params` of boxerd/daemon.py returns.
use boxer.Base.{◌≤◌, String, true, ◌≡◌, ◌⊎◌, Option, List, length}
use boxer.Ipc.Yields.{Yields}
use boxer.Profiles.{contains, profiles, max_profiles}
use boxer.Profiles.Merge.{IsUnique}
use boxer.Daemon.Params.Bounds.{IsShortList}
use boxer.Daemon.Bootstrap.{
  WriteFile, BootstrapParams, is_public_key, all, add_agent, forget_user_data,
}
use boxer.Daemon.Bootstrap.Limits.{WithinLimits}

-- The files are the caller's, and after them at most that of the in-guest agent.
abbrev FilesOf : Option (WriteFile × List String) → BootstrapParams → Type 0
FilesOf injection b =
    (files : List WriteFile) × (commands : List String) × (WithinLimits files
      × ((b.write_files ≡ files) ⊎ (b.write_files ≡ (add_agent injection (files, commands)).0)))

-- The limits of an accepted bootstrap.
pub record IsAccepted (injection : Option (WriteFile × List String)) (b : BootstrapParams)
    : Type 0 where
  pub packages : length b.packages ≤ 80
  pub unique : IsUnique b.packages
  pub keys : IsShortList 10 4096 b.ssh_public_keys
  pub public : all is_public_key b.ssh_public_keys ≡ true
  pub profiles : IsShortList max_profiles 32 b.profiles
  pub files : FilesOf injection b
  pub forgets : (b.secret_count ≡ 0) ⊎ (contains forget_user_data b.commands ≡ true)
