-- ===== src/Images/Pruning.antt =====
-- `prune` of boxerd/image_catalog.py: the files that no template and no machine needs are removed. The
-- chains of the machines' disks are asked of qemu-img, and are an argument.
use boxer.Base.{
  ℕ, ◌+◌, Bool, false, not, ◌&&◌, ◌||◌, Option, none, some, List, any, select, map, leb,
  if◌then◌else◌,
}
use boxer.Images.{BlobPath, Cache, current_blob, path_eq}

-- What `_collect_backing_files` and `stat` tell of the files.
pub record Disks : Type 0 where
  pub in_use : BlobPath → Bool
  pub backing_known : Bool
  pub mtime : BlobPath → ℕ

abbrev pub is_path : BlobPath → Option BlobPath → Bool
is_path p none = false
is_path p (some q) = path_eq q p

module _ {Bytes : Type 0} where
  -- `_collect_current_blobs`, for one path
  unfoldable pub is_current : Cache Bytes → BlobPath → Bool
  unfolding current_blob
  is_current cache p = any (λ m. is_path p (current_blob m.name m.is_iso cache)) cache.metadata

  unfoldable pub removable : Disks → ℕ → ℕ → Cache Bytes → BlobPath → Bool
  unfolding is_current
  removable disks older_than_seconds now cache p =
      not (is_current cache p || disks.in_use p)
      && disks.backing_known
      && leb (disks.mtime p + older_than_seconds) now

  -- The cache that is left, and the paths that are reported as removed.
  unfoldable pub prune : Disks → ℕ → ℕ → Bool → Cache Bytes → Cache Bytes × List BlobPath
  unfolding removable
  prune disks older_than_seconds now dry_run cache =
      let gone = removable disks older_than_seconds now cache in
      (
        if dry_run
            then cache
            else record cache { blobs = select (λ b. not (gone b.0)) cache.blobs },
        map (λ b. b.0) (select (λ b. gone b.0) cache.blobs),
      )
