-- ===== src/Storage/Store/Spec.antt =====
-- The abstract index that `IndexStore` promises: a list of entries in order, the staged ones, and
-- the journal positions; and the calls of `IIndexStore` that change it.
use winindex.Prelude.{
  ℕ, ◌+◌, ◌^◌, ◌<◌, Bool, not, Option, none, some, List, [], ◌∷◌, ◌++◌, map, length, filter, All,
  WString, wstr_eq, starts_with,
}
use winindex.Storage.Pool.{FileEntry, lowered}
use winindex.Storage.Pool.Bounds.{FitsEntry, HasRoom}
use winindex.Storage.Pool.Views.{Entry, entries, as_entry}
use winindex.Storage.Store.Marks.{remove_first, find_first}
use winindex.Storage.Store.{
  IndexStore, UsnMap, usn_set, lower, with_separator, begin_write, stage_entry, end_write,
  apply_add, apply_remove, apply_rename, remove_entries_under_path, set_saved_usn,
}

pub data Call : Type 0 where
  begins : Call
  stages : FileEntry → Call
  ends : Call
  adds : FileEntry → Call
  removes : WString → Call
  renames : WString → WString → Call
  removes_under : WString → Call
  saves_usn : WString → ℕ → Call

pub record Index : Type 0 where
  pub live : List Entry
  pub staged : List FileEntry
  pub usns : UsnMap

module _ (towlower : ℕ → ℕ) where
  unfoldable pub step : IndexStore → Call → IndexStore
  unfolding begin_write stage_entry end_write apply_add apply_remove apply_rename
      remove_entries_under_path set_saved_usn
  step s begins = begin_write s
  step s (stages e) = stage_entry e s
  step s ends = end_write towlower s
  step s (adds e) = apply_add towlower e s
  step s (removes path) = apply_remove towlower path s
  step s (renames old new) = apply_rename towlower old new s
  step s (removes_under prefix) = remove_entries_under_path towlower prefix s
  step s (saves_usn root usn) = set_saved_usn root usn s

  unfoldable pub run : IndexStore → List Call → IndexStore
  run s [] = s
  run s (c ∷ cs) = run (step s c) cs

  -- Paths are compared without regard to case.
  abbrev pub same_path : WString → Entry → Bool
  same_path path e = wstr_eq (lower towlower e.path) (lower towlower path)

  abbrev pub is_under : WString → Entry → Bool
  is_under prefix e = starts_with (lower towlower e.path) (with_separator (lower towlower prefix))

  abbrev pub rename_in : WString → WString → List Entry → Option Entry → List Entry
  rename_in old new es none = es
  rename_in old new es (some e) = remove_first (same_path old) es ++ (record e { path = new } ∷ [])

  abbrev pub spec_step : Index → Call → Index
  spec_step x begins = record x { staged = [] }
  spec_step x (stages e) = record x { staged = x.staged ++ (e ∷ []) }
  spec_step x ends = record x { live = map as_entry x.staged; staged = [] }
  spec_step x (adds e) = record x { live = x.live ++ (as_entry e ∷ []) }
  spec_step x (removes path) = record x { live = remove_first (same_path path) x.live }
  spec_step x (renames old new) = record x {
    live = rename_in old new x.live (find_first (same_path old) x.live);
  }
  spec_step x (removes_under prefix) = record x {
    live = filter (λ e. not (is_under prefix e)) x.live;
  }
  spec_step x (saves_usn root usn) = record x { usns = usn_set root usn x.usns }

  abbrev pub spec_run : Index → List Call → Index
  spec_run x [] = x
  spec_run x (c ∷ cs) = spec_run (spec_step x c) cs

  -- The characters that a list of entries takes in the two pools.
  abbrev pub path_chars : List FileEntry → ℕ
  path_chars [] = 0
  path_chars (e ∷ es) = length e.path + path_chars es

  abbrev pub lower_chars : List FileEntry → ℕ
  lower_chars [] = 0
  lower_chars (e ∷ es) = length (lowered towlower e) + lower_chars es

  -- The call's entries fit the 16-bit lengths, and the pools the 32-bit offsets.
  abbrev pub Fits : IndexStore → Call → Type 0
  Fits s ends =
      All FitsEntry s.staging_buf
      × (path_chars s.staging_buf < 2 ^ 32)
      × (lower_chars s.staging_buf < 2 ^ 32)
  Fits s (adds e) = HasRoom s.pool × FitsEntry e
  Fits s (renames old new) = HasRoom s.pool × (length new < 2 ^ 16)
  Fits s _ = Unit {0}

  abbrev pub AllFit : IndexStore → List Call → Type 0
  AllFit s [] = Unit {0}
  AllFit s (c ∷ cs) = Fits s c × AllFit (step s c) cs

abbrev pub view : IndexStore → Index
view s = record { live = entries s.pool; staged = s.staging_buf; usns = s.usn_map }
