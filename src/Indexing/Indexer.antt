-- ===== src/Indexing/Indexer.antt =====
-- src/core/indexer/Indexer.h, Indexer.cpp, with FileChangeEvent of IUsnJournalMonitor.h, the scanner
-- interface of IFileSystemScanner.h and DriveFilesystem of DriveEnumerator.h. Each body is run by
-- one thread from start to end; `seen k` is what its k-th read of the cancel flag gives. The
-- messages of a scan are in Indexing/Indexer/Messages; their order among several threads is left out.
pub mod Changes
pub mod Threads
pub mod Roots
pub mod Watchers
pub mod Messages
use winindex.Prelude.{
  ℕ, ◌+◌, ◌*◌, ◌/◌, ◌%◌, ◌^◌, Bool, true, false, not, ◌&&◌, Option, none, some, List, [], ◌∷◌, ◌++◌,
  map, any, filter, ◌==◌, ltb, if◌then◌else◌, length, drop, WString, codes, wstr_eq, is_empty,
}
use winindex.Storage.Pool.{FileEntry, file_name_start}
use winindex.Storage.Store.{
  IndexStore, FileTime, filetime_value, lower, apply_add, apply_remove, apply_rename, begin_write,
  stage_entry, end_write, remove_entries_under_path, get_entry_count, is_index_valid,
  get_index_age_seconds,
}
use winindex.Storage.Serializer.Read.{Outcome, ok, ◌>>=◌}
use winindex.Storage.Persist.{load, save}
use winindex.Config.Settings.{Settings}

pub data IndexerState : Type 0 where
  idle scanning loading_index watching_for_changes error_state : IndexerState

pub record IndexerStatus : Type 0 where
  pub state : IndexerState
  pub message : WString
  pub files_indexed : ℕ
  pub skipped_paths : ℕ
  pub locations : List WString
  pub index_age_seconds : ℕ

pub data FileChangeType : Type 0 where
  added removed renamed_to modified : FileChangeType

pub record FileChangeEvent : Type 0 where
  pub change : FileChangeType
  pub path : WString
  pub old_path : WString

pub data DriveFilesystem : Type 0 where
  ntfs fat32 other : DriveFilesystem

-- IFileSystemScanner: what a scan of a root under the exclusions hands to its callback, by what each
-- of its reads of the cancel flag gives.
pub record Scanner : Type 0 where
  pub is_mft_available : WString → Bool
  pub scan : (ℕ → Bool) → WString → List WString → List FileEntry

-- What `GetFileAttributesExW` gives.
pub record FileData : Type 0 where
  pub file_attributes : ℕ
  pub size_high : ℕ
  pub size_low : ℕ
  pub last_write : FileTime

-- What the indexer takes from the system and from its parts.
pub record Machine : Type 0 where
  pub towlower : ℕ → ℕ
  pub file_data : WString → Option FileData
  pub get_filesystem : WString → DriveFilesystem
  pub local_fixed_drives : List WString
  pub mft_scanner : Scanner
  pub find_scanner : Scanner
  pub settings : Settings
  pub system_time : FileTime

-- `watchers` are the roots of `m_watchers`; `index_file` is the file that `Save` writes.
pub record Indexer : Type 0 where
  pub store : IndexStore
  pub watchers : List WString
  pub files_indexed : ℕ
  pub index_file : Option (List ℕ)
  pub statuses : List IndexerStatus
  pub is_indexing : Bool
  pub cancelled : Bool

unfoldable pub emit_status : IndexerState → WString → Indexer → Indexer
emit_status state message s = record s {
  statuses =
      s.statuses
      ++ ((record {
        state = state;
        message = message;
        files_indexed = 0;
        skipped_paths = 0;
        locations = [];
        index_age_seconds = 0;
      })
          ∷ []);
}

unfoldable pub emit_status_done : ℕ → List WString → ℕ → Indexer → Indexer
emit_status_done files locations age s = record s {
  statuses =
      s.statuses
      ++ ((record {
        state = watching_for_changes;
        message = [];
        files_indexed = files;
        skipped_paths = 0;
        locations = locations;
        index_age_seconds = age;
      })
          ∷ []);
}

-- `w->Root() == root` for some watcher.
abbrev pub is_root : WString → List WString → Bool
is_root root = any (λ w. wstr_eq w root)

unfoldable pub stop_watchers_for_roots : List WString → Indexer → Indexer
stop_watchers_for_roots roots s = record s {
  watchers = filter (λ w. not (is_root w roots)) s.watchers;
}

-- The loop of `StartWatchersForRoots`, from the k-th read of the cancel flag.
unfoldable pub start_watchers : (ℕ → Bool) → ℕ → List WString → List WString → List WString
start_watchers seen k [] watchers = watchers
start_watchers seen k (root ∷ roots) watchers =
    let rest =
      start_watchers seen (k + 1) roots
        (if is_root root watchers then watchers else watchers ++ (root ∷ [])) in
    if seen k then watchers else rest

unfoldable pub start_watchers_for_roots : (ℕ → Bool) → ℕ → List WString → Indexer → Indexer
unfolding start_watchers
start_watchers_for_roots seen k roots s = record s {
  watchers = start_watchers seen k roots s.watchers;
}

unfoldable pub cancel : Indexer → Indexer
cancel s = record s { cancelled = true; watchers = [] }

module _ (sys : Machine) where
  -- The entry that `BuildAndApplyAdd` builds.
  unfoldable pub build_entry : WString → FileData → FileEntry
  build_entry path fad =
      let name = drop (file_name_start path) path in
      record {
        name = name;
        name_lower = lower sys.towlower name;
        path = path;
        size = fad.size_high * 2 ^ 32 + fad.size_low;
        last_modified = filetime_value fad.last_write;
        attributes = fad.file_attributes;
      }

  -- FILE_ATTRIBUTE_DIRECTORY is the bit of value 16.
  abbrev pub is_directory : FileData → Bool
  is_directory fad = fad.file_attributes / 16 % 2 == 1

  abbrev pub add_found : WString → Option FileData → IndexStore → IndexStore × Bool
  add_found path none store = (store, false)
  add_found path (some fad) store =
      if is_directory fad
      then (store, false)
      else (apply_add sys.towlower (build_entry path fad) store, true)

  unfoldable pub build_and_apply_add : WString → IndexStore → IndexStore × Bool
  build_and_apply_add path = add_found path (sys.file_data path)

  abbrev change_of : FileChangeType → WString → WString → IndexStore → IndexStore
  change_of added path old_path store = (build_and_apply_add path store).0
  change_of modified path old_path store =
      (build_and_apply_add path (apply_remove sys.towlower path store)).0
  change_of removed path old_path store = apply_remove sys.towlower path store
  change_of renamed_to path old_path store =
      if not (is_empty old_path)
      then apply_rename sys.towlower old_path path store
      else (build_and_apply_add path store).0

  unfoldable pub apply_change : FileChangeEvent → IndexStore → IndexStore
  unfolding build_and_apply_add
  apply_change evt = change_of evt.change evt.path evt.old_path

  abbrev pub is_ntfs : DriveFilesystem → Bool
  is_ntfs ntfs = true
  is_ntfs _ = false

  unfoldable pub scan_drive_into : (ℕ → Bool) → WString → List FileEntry
  scan_drive_into reads root =
      let scanner =
        if is_ntfs (sys.get_filesystem root) && sys.mft_scanner.is_mft_available root
        then sys.mft_scanner
        else sys.find_scanner in
      scanner.scan reads root sys.settings.excluded_paths

  abbrev or_fixed : List WString → List WString
  or_fixed [] = sys.local_fixed_drives
  or_fixed (d ∷ ds) = d ∷ ds

  abbrev pub drives_to_index : List WString
  drives_to_index = or_fixed sys.settings.selected_drives

  unfoldable pub start_live_monitoring : (ℕ → Bool) → ℕ → Indexer → Indexer
  unfolding start_watchers_for_roots
  start_live_monitoring seen k = start_watchers_for_roots seen k drives_to_index
