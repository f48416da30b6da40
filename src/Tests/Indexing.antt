-- ===== src/Tests/Indexing.antt =====
-- The indexer on concrete inputs.
use winindex.Prelude.{
  ℕ, ◌≡◌, refl, Bool, true, false, not, Option, none, some, [], ◌∷◌, ◌++◌, map, filter, arith,
  WString, codes, if◌then◌else◌, wstr_eq,
}
use winindex.Storage.Pool.{
  add_entry, entry_meta, lowered_name, name_source, file_name_start, size_of_diff, empty_pool,
}
use winindex.Storage.Pool.Bounds.{IsWellFormed}
use winindex.Storage.Pool.Views.{entries, as_entry}
use winindex.Storage.Store.{IndexStore, filetime_value, mark_first, path_hits, end_write, add_all}
use winindex.Storage.Store.Spec.{step, AllFit}
use winindex.Storage.Serializer.Read.{ok}
use winindex.Storage.Serializer.RoundTrip.{FitsFile}
use winindex.Storage.Persist.{load, save}
use winindex.Indexing.Indexer.{
  Machine, Scanner, FileData, ntfs, FileChangeEvent, modified, Indexer, is_root, apply_change,
  build_entry, drives_to_index, scan_drive_into,
}
use winindex.Indexing.Indexer.Threads.{indexing_thread, remove_paths_thread, scanned}
use winindex.Indexing.Indexer.Changes.{calls_of, changed, apply_change-changed}
use winindex.Indexing.Indexer.Roots.{
  under_any, remove_paths_thread-entries, rebuilt_store, ScanFits, indexing_thread-reload,
}
use winindex.Tests.Storage.{
  ascii_lower, file_at, store_of, two_files, two_files_WellFormed, empty_store,
}
use winindex.Tests.Config.{saved}

abbrev pub data_of : WString → Option FileData
data_of path =
    if wstr_eq path (codes "D:\\b\\C")
    then some (record {
      file_attributes = 32;
      size_high = 1;
      size_low = 2;
      last_write = record { high = 0; low = 9 };
    })
    else none

abbrev pub finder : Scanner
finder = record {
  is_mft_available = λ root. false;
  scan = λ reads root excluded.
      file_at (root ++ codes "One") 1 ∷ (file_at (root ++ codes "Two") 2 ∷ []);
}

abbrev pub machine : Machine
machine = record {
  towlower = ascii_lower;
  file_data = data_of;
  get_filesystem = λ root. ntfs;
  local_fixed_drives = codes "D:\\" ∷ [];
  mft_scanner = finder;
  find_scanner = finder;
  settings = saved;
  system_time = record { high = 1; low = 0 };
}

abbrev indexer : Indexer
indexer = record {
  store = store_of two_files;
  watchers = codes "D:\\" ∷ (codes "E:\\" ∷ []);
  files_indexed = 0;
  index_file = none;
  statuses = [];
  is_indexing = true;
  cancelled = false;
}

abbrev never : ℕ → Bool
never k = false

abbrev all_calm : ℕ → ℕ → Bool
all_calm i k = false

abbrev change : FileChangeEvent
change = record { change = modified; path = codes "D:\\b\\C"; old_path = [] }

change_fits : AllFit ascii_lower (store_of two_files) (calls_of machine change)
unfolding step mark_first path_hits build_entry file_name_start filetime_value
change_fits = omega arith

apply_change-changed_example :
    let s' = apply_change machine change (store_of two_files) in
    IsWellFormed s'.pool
    × (entries s'.pool ≡ changed machine modified (codes "D:\\b\\C") [] (entries two_files))
    × (s'.staging_buf ≡ (store_of two_files).staging_buf)
    × (s'.usn_map ≡ (store_of two_files).usn_map)
apply_change-changed_example =
    apply_change-changed machine change (store_of two_files) change_fits two_files_WellFormed

remove_paths_thread-entries_example :
    let s' = remove_paths_thread machine (codes "d:\\B" ∷ []) indexer in
    (entries s'.store.pool
      ≡ filter (λ e. not (under_any machine (codes "d:\\B" ∷ []) e)) (entries two_files))
    × (s'.watchers ≡ filter (λ w. not (is_root w (codes "d:\\B" ∷ []))) indexer.watchers)
    × (s'.index_file ≡ some (save (filetime_value machine.system_time) s'.store))
remove_paths_thread-entries_example =
    remove_paths_thread-entries machine (codes "d:\\B" ∷ []) indexer two_files_WellFormed

scan_fits : ScanFits machine all_calm indexer
unfolding scan_drive_into lowered_name name_source file_name_start size_of_diff
scan_fits = omega arith

built_fits : FitsFile (rebuilt_store machine all_calm indexer).pool indexer.store.usn_map
unfolding scan_drive_into lowered_name name_source file_name_start size_of_diff end_write add_all
    add_entry entry_meta empty_pool
built_fits = record {
  paths_fit = omega arith;
  paths_wide = omega arith;
  count_fits = omega arith;
  entries_fit = omega arith;
  usns_fit = omega arith;
  usns_apart = (tt, tt);
  usn_count_fits = omega arith;
}

indexing_thread-reload_example :
    let s' = indexing_thread machine never all_calm indexer in
    IsWellFormed s'.store.pool
    × (entries s'.store.pool ≡ map as_entry (scanned machine all_calm (drives_to_index machine)))
    × ((t' : IndexStore) × (load ascii_lower s'.index_file empty_store ≡ ok t')
        × (entries t'.pool ≡ map as_entry (scanned machine all_calm (drives_to_index machine)))
        × (t'.usn_map ≡ indexer.store.usn_map)
        × IsWellFormed t'.pool)
indexing_thread-reload_example =
    indexing_thread-reload machine never all_calm indexer empty_store refl scan_fits built_fits
      (unfold filetime_value in omega arith)
