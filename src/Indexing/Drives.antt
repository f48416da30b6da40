-- ===== src/Indexing/Drives.antt =====
-- src/core/indexer/DriveEnumerator.h, DriveEnumerator.cpp: the drives among the 26 letters. What the
-- system says of a drive is an argument.
use winindex.Prelude.{
  ℕ, zero, suc, ◌+◌, ◌/◌, ◌%◌, ◌^◌, ◌≡◌, refl, Bool, true, false, not, ◌&&◌, ◌||◌, Option, none,
  some, List, [], ◌∷◌, ◌==◌, filter, if◌then◌else◌, WString, codes, backslash, wstr_eq, arith,
}
use winindex.Indexing.Indexer.{DriveFilesystem, ntfs, fat32, other}

pub record DriveInfo : Type 0 where
  pub root : WString
  pub label : WString
  pub filesystem : DriveFilesystem

-- GetVolumeInformationW for the name of the file system, `none` where it fails, and for the label,
-- empty where it fails; GetLogicalDrives and GetDriveTypeW.
pub record Drives : Type 0 where
  pub filesystem_name : WString → Option WString
  pub volume_label : WString → WString
  pub logical_drives : ℕ
  pub drive_type : WString → ℕ

-- DRIVE_REMOVABLE and DRIVE_FIXED.
abbrev pub drive_removable : ℕ
drive_removable = 2

abbrev pub drive_fixed : ℕ
drive_fixed = 3

-- `{L'A' + i, L':', L'\\'}`
abbrev pub root_of : ℕ → WString
root_of i = (b'A' + i) ∷ (b':' ∷ (backslash ∷ []))

-- `mask & (1u << i)`
abbrev pub is_set : ℕ → ℕ → Bool
is_set mask i = mask / 2 ^ i % 2 == 1

abbrev pub filesystem_of : Option WString → DriveFilesystem
filesystem_of none = other
filesystem_of (some name) =
    if wstr_eq name (codes "NTFS")
    then ntfs
    else if wstr_eq name (codes "FAT32") || wstr_eq name (codes "FAT")
    then fat32
    else other

abbrev pub is_other : DriveFilesystem → Bool
is_other ntfs = false
is_other fat32 = false
is_other other = true

module _ (sys : Drives) where
  unfoldable pub get_filesystem : WString → DriveFilesystem
  get_filesystem root = filesystem_of (sys.filesystem_name root)

  unfoldable pub info_of : WString → DriveInfo
  info_of root = record {
    root = root;
    label = sys.volume_label root;
    filesystem = get_filesystem root;
  }

  -- The loops over the letters; `n` counts those that are left.
  unfoldable pub local_from : ℕ → ℕ → List DriveInfo
  local_from zero i = []
  local_from (suc n) i =
      let rest = local_from n (suc i) in
      if not (is_set sys.logical_drives i)
      then rest
      else if not (sys.drive_type (root_of i) == drive_fixed)
      then rest
      else if is_other (get_filesystem (root_of i))
      then rest
      else info_of (root_of i) ∷ rest

  unfoldable pub enumerate_local_fixed_drives : List DriveInfo
  unfolding local_from
  enumerate_local_fixed_drives = local_from 26 0

  unfoldable pub all_from : ℕ → ℕ → List DriveInfo
  all_from zero i = []
  all_from (suc n) i =
      let rest = all_from n (suc i) in
      if not (is_set sys.logical_drives i)
      then rest
      else if not (sys.drive_type (root_of i) == drive_fixed)
          && not (sys.drive_type (root_of i) == drive_removable)
      then rest
      else info_of (root_of i) ∷ rest

  unfoldable pub enumerate_all_drives : List DriveInfo
  unfolding all_from
  enumerate_all_drives = all_from 26 0

  -- A fixed drive with a file system that can be indexed.
  abbrev pub can_index : DriveInfo → Bool
  can_index d = sys.drive_type d.root == drive_fixed && not (is_other d.filesystem)

  local_from-filter : (n i : ℕ) → local_from n i ≡ filter can_index (all_from n i)
  unfolding local_from all_from info_of
  local_from-filter zero i = refl
  local_from-filter (suc n) i = ground (arith, local_from-filter n (suc i))

  -- The local fixed drives are, in order, those of all drives that are fixed and have a file
  -- system that can be indexed.
  pub enumerate_local_fixed_drives-filter :
      enumerate_local_fixed_drives ≡ filter can_index enumerate_all_drives
  unfolding enumerate_local_fixed_drives enumerate_all_drives
  enumerate_local_fixed_drives-filter = local_from-filter 26 0
