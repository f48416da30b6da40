-- ===== src/Storage/Pool.antt =====
-- src/core/storage/IndexPool.h, IndexPool.cpp, and FileEntry of src/core/indexer/IFileSystemScanner.h.
-- A vector is a list, so `Reserve`, which changes only the capacity, is left out. `towlower` is the
-- C library's function on one UTF-16 code unit.
pub mod Bounds
pub mod Views
use winindex.Prelude.{
  ℕ, ◌+◌, ◌-◌, ◌%◌, ◌^◌, Bool, false, Option, none, some, List, [], ◌∷◌, ◌++◌, map, leb,
  if◌then◌else◌, length, get_elem?, take, drop, slice?, WString, backslash, rfind, after_last,
}

pub record FileEntry : Type 0 where
  pub name : WString
  pub name_lower : WString
  pub path : WString
  pub size : ℕ
  pub last_modified : ℕ
  pub attributes : ℕ

-- The uint8_t `deleted` is only ever 0 or 1.
pub record EntryMeta : Type 0 where
  pub size : ℕ
  pub last_modified : ℕ
  pub path_offset : ℕ
  pub name_lower_offset : ℕ
  pub attributes : ℕ
  pub path_len : ℕ
  pub name_lower_len : ℕ
  pub name_start : ℕ
  pub deleted : Bool

pub record IndexPool : Type 0 where
  pub metas : List EntryMeta
  pub name_lower_pool : WString
  pub path_pool : WString

-- What `Clear` leaves, and a default-constructed pool.
unfoldable pub empty_pool : IndexPool
empty_pool = record { metas = []; name_lower_pool = []; path_pool = [] }

unfoldable pub clear : IndexPool → IndexPool
unfolding empty_pool
clear p = empty_pool

-- `static_cast<size_t>(a - b)` of two uint16_t: the difference is an int, and wraps if negative.
unfoldable pub size_of_diff : ℕ → ℕ → ℕ
size_of_diff a b = if leb b a then a - b else 2 ^ 64 - (b - a)

-- `slash != npos ? slash + 1 : 0`, before the cast to uint16_t.
unfoldable pub file_name_start : WString → ℕ
file_name_start path = after_last (rfind backslash path)

-- The source of the lowercased name where none is given: the name, or else the tail of the path.
unfoldable pub name_source : WString → WString → ℕ → ℕ → WString
name_source [] path path_len name_start =
    take (size_of_diff path_len name_start) (drop name_start path)
name_source (c ∷ name) path path_len name_start = c ∷ name

module _ (towlower : ℕ → ℕ) where
  -- The characters that `AddEntry` appends to the pool of lowercased names.
  unfoldable pub lowered_name : WString → WString → WString → ℕ → ℕ → WString
  lowered_name [] name path path_len name_start =
      map towlower (name_source name path path_len name_start)
  lowered_name (c ∷ lower) name path path_len name_start = c ∷ lower

  abbrev pub lowered : FileEntry → WString
  lowered e =
      lowered_name e.name_lower e.name e.path (length e.path % 2 ^ 16)
        (file_name_start e.path % 2 ^ 16)

  -- The record that `AddEntry` appends, with its casts to 32 and 16 bits.
  unfoldable pub entry_meta : IndexPool → FileEntry → EntryMeta
  entry_meta p e = record {
    size = e.size;
    last_modified = e.last_modified;
    path_offset = length p.path_pool % 2 ^ 32;
    name_lower_offset = length p.name_lower_pool % 2 ^ 32;
    attributes = e.attributes;
    path_len = length e.path % 2 ^ 16;
    name_lower_len = length (lowered e) % 2 ^ 16;
    name_start = file_name_start e.path % 2 ^ 16;
    deleted = false;
  }

  unfoldable pub add_entry : IndexPool → FileEntry → IndexPool
  add_entry p e = record {
    metas = p.metas ++ (entry_meta p e ∷ []);
    name_lower_pool = p.name_lower_pool ++ lowered e;
    path_pool = p.path_pool ++ e.path;
  }

-- The views. `none` is a read outside the vectors, which is undefined in the source.
unfoldable pub path_view : IndexPool → EntryMeta → Option WString
path_view p m = slice? p.path_pool m.path_offset m.path_len

unfoldable pub name_lower_view : IndexPool → EntryMeta → Option WString
name_lower_view p m = slice? p.name_lower_pool m.name_lower_offset m.name_lower_len

unfoldable pub name_view : IndexPool → EntryMeta → Option WString
name_view p m =
    slice? p.path_pool (m.path_offset + m.name_start) (size_of_diff m.path_len m.name_start)

abbrev with_meta : (EntryMeta → Option WString) → Option EntryMeta → Option WString
with_meta view none = none
with_meta view (some m) = view m

unfoldable pub get_path : IndexPool → ℕ → Option WString
unfolding path_view
get_path p idx = with_meta (path_view p) (get_elem? p.metas idx)

unfoldable pub get_name_lower : IndexPool → ℕ → Option WString
unfolding name_lower_view
get_name_lower p idx = with_meta (name_lower_view p) (get_elem? p.metas idx)

unfoldable pub get_name : IndexPool → ℕ → Option WString
unfolding name_view size_of_diff
get_name p idx = with_meta (name_view p) (get_elem? p.metas idx)
