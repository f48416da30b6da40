-- ===== src/Storage/Store.antt =====
-- src/core/storage/IIndexStore.h, IndexStore.h, IndexStore.cpp: the mutations and the queries of the
-- store, and the age of its file. The locks make each call one step, so a call is a function on
-- the state. The loops cast their index to uint32_t, which keeps it below 2^32 entries.
pub mod Marks
pub mod Spec
pub mod Refine
pub mod Age
use winindex.Prelude.{
  ℕ, ◌+◌, ◌-◌, ◌*◌, ◌/◌, ◌%◌, ◌^◌, Bool, true, false, not, ◌&&◌, Option, none, some, List, [], ◌∷◌,
  ◌++◌, map, leb, ltb, ◌==◌, if◌then◌else◌, drop, WString, codes, backslash, wstr_eq, starts_with,
  ends_with_char, is_empty,
}
use winindex.Storage.Pool.{
  FileEntry, EntryMeta, IndexPool, empty_pool, add_entry, file_name_start, path_view,
}

-- `m_usnMap`, as an association list with one binding for each key.
abbrev pub UsnMap : Type 0
UsnMap = List (WString × ℕ)

pub record IndexStore : Type 0 where
  pub pool : IndexPool
  pub usn_map : UsnMap
  pub staging_buf : List FileEntry

-- `m_usnMap[root] = usn`
unfoldable pub usn_set : WString → ℕ → UsnMap → UsnMap
usn_set root usn [] = (root, usn) ∷ []
usn_set root usn ((r, u) ∷ m) =
    if wstr_eq r root then (root, usn) ∷ m else (r, u) ∷ usn_set root usn m

-- `find`, with 0 for a missing key.
unfoldable pub usn_get : WString → UsnMap → ℕ
usn_get root [] = 0
usn_get root ((r, u) ∷ m) = if wstr_eq r root then u else usn_get root m

unfoldable pub begin_write : IndexStore → IndexStore
begin_write s = record s { staging_buf = [] }

unfoldable pub stage_entry : FileEntry → IndexStore → IndexStore
stage_entry e s = record s { staging_buf = s.staging_buf ++ (e ∷ []) }

abbrev pub mark : EntryMeta → EntryMeta
mark m = record m { deleted = true }

-- The loop of `ApplyRemove` and `ApplyRename`: the first live entry that hits gets a tombstone.
unfoldable pub mark_first : (EntryMeta → Bool) → List EntryMeta → List EntryMeta
mark_first hit [] = []
mark_first hit (m ∷ ms) =
    let rest = m ∷ mark_first hit ms in
    if m.deleted then rest else if hit m then mark m ∷ ms else rest

-- The entry at which that loop stops.
unfoldable pub first_live : (EntryMeta → Bool) → List EntryMeta → Option EntryMeta
first_live hit [] = none
first_live hit (m ∷ ms) =
    let rest = first_live hit ms in if m.deleted then rest else if hit m then some m else rest

-- The loop of `RemoveEntriesUnderPath`, which does not stop.
unfoldable pub mark_all : (EntryMeta → Bool) → List EntryMeta → List EntryMeta
mark_all hit [] = []
mark_all hit (m ∷ ms) = (if m.deleted then m else if hit m then mark m else m) ∷ mark_all hit ms

-- `lp` of `RemoveEntriesUnderPath` from the lowercased prefix.
unfoldable pub with_separator : WString → WString
with_separator lp =
    if not (is_empty lp) && not (ends_with_char backslash lp) then lp ++ (backslash ∷ []) else lp

module _ (towlower : ℕ → ℕ) where
  abbrev pub lower : WString → WString
  lower = map towlower

  -- A view outside the pool is undefined in the source; here it matches nothing.
  abbrev lower_view : (WString → Bool) → Option WString → Bool
  lower_view test none = false
  lower_view test (some pv) = test (lower pv)

  -- `pl == lower` on the entry's path.
  unfoldable pub path_hits : IndexPool → WString → EntryMeta → Bool
  unfolding path_view
  path_hits p target m = lower_view (λ pl. wstr_eq pl target) (path_view p m)

  -- `pl.compare(0, lp.size(), lp) == 0`
  unfoldable pub path_under : IndexPool → WString → EntryMeta → Bool
  unfolding path_view
  path_under p lp m = lower_view (λ pl. starts_with pl lp) (path_view p m)

  unfoldable pub add_all : IndexPool → List FileEntry → IndexPool
  add_all p [] = p
  add_all p (e ∷ es) = add_all (add_entry towlower p e) es

  unfoldable pub end_write : IndexStore → IndexStore
  unfolding empty_pool
  end_write s = record s { pool = add_all empty_pool s.staging_buf; staging_buf = [] }

  unfoldable pub apply_add : FileEntry → IndexStore → IndexStore
  apply_add e s = record s { pool = add_entry towlower s.pool e }

  unfoldable pub apply_remove : WString → IndexStore → IndexStore
  apply_remove path s = record s {
    pool = record (s.pool) { metas = mark_first (path_hits s.pool (lower path)) s.pool.metas };
  }

  -- The entry that `ApplyRename` builds from the metadata of the old one.
  unfoldable pub renamed : EntryMeta → WString → FileEntry
  renamed om new_path =
      let name = drop (file_name_start new_path) new_path in
      record {
        name = name;
        name_lower = lower name;
        path = new_path;
        size = om.size;
        last_modified = om.last_modified;
        attributes = om.attributes;
      }

  unfoldable pub rename_found :
      WString → (EntryMeta → Bool) → IndexPool → Option EntryMeta → IndexPool
  rename_found new_path hit p none = p
  rename_found new_path hit p (some om) =
      add_entry towlower (record p { metas = mark_first hit p.metas }) (renamed om new_path)

  unfoldable pub apply_rename : WString → WString → IndexStore → IndexStore
  unfolding rename_found
  apply_rename old_path new_path s =
      let hit = path_hits s.pool (lower old_path) in
      record s { pool = rename_found new_path hit s.pool (first_live hit s.pool.metas) }

  unfoldable pub remove_entries_under_path : WString → IndexStore → IndexStore
  remove_entries_under_path prefix s = record s {
    pool = record (s.pool) {
      metas = mark_all (path_under s.pool (with_separator (lower prefix))) s.pool.metas;
    };
  }

unfoldable pub count_live : List EntryMeta → ℕ
count_live [] = 0
count_live (m ∷ ms) = (if m.deleted then 0 else 1) + count_live ms

unfoldable pub get_entry_count : IndexStore → ℕ
unfolding count_live
get_entry_count s = count_live s.pool.metas

unfoldable pub get_saved_usn : WString → IndexStore → ℕ
get_saved_usn root s = usn_get root s.usn_map

unfoldable pub set_saved_usn : WString → ℕ → IndexStore → IndexStore
set_saved_usn root usn s = record s { usn_map = usn_set root usn s.usn_map }

unfoldable pub index_file_path : WString → WString
index_file_path data_directory = data_directory ++ codes "\\winindex.idx"

-- FILETIME as two 32-bit halves; `|` of the shifted halves is a sum.
pub record FileTime : Type 0 where
  pub high : ℕ
  pub low : ℕ

unfoldable pub filetime_value : FileTime → ℕ
filetime_value t = t.high * 2 ^ 32 + t.low

-- `written` is the last write time of the index file, if there is one; `now` is the system time.
unfoldable pub is_index_valid : ℕ → Option FileTime → FileTime → Bool
is_index_valid interval_hours none now = false
is_index_valid interval_hours (some written) now =
    let age = (filetime_value now + 2 ^ 64 - filetime_value written) % 2 ^ 64 / 36000000000 in
    if interval_hours == 0 then true else ltb age interval_hours

unfoldable pub get_index_age_seconds : Option FileTime → FileTime → ℕ
get_index_age_seconds none now = 2 ^ 64 - 1
get_index_age_seconds (some written) now =
    if leb (filetime_value now) (filetime_value written)
    then 0
    else (filetime_value now - filetime_value written) / 10000000
