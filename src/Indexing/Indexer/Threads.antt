-- ===== src/Indexing/Indexer/Threads.antt =====
-- src/core/indexer/Indexer.cpp: the bodies of the indexer's threads, and the calls that start them.
use winindex.Prelude.{
  ℕ, suc, ◌+◌, Bool, true, false, not, ◌&&◌, Option, some, List, [], ◌∷◌, ◌++◌, ltb, if◌then◌else◌,
  length, WString, codes,
}
use winindex.Storage.Pool.{FileEntry}
use winindex.Storage.Store.{
  IndexStore, FileTime, filetime_value, apply_add, begin_write, stage_entry, end_write,
  remove_entries_under_path, get_entry_count, is_index_valid, get_index_age_seconds,
}
use winindex.Storage.Serializer.Read.{Outcome, ok, ◌>>=◌}
use winindex.Storage.Persist.{load, save}
use winindex.Indexing.Indexer.{
  emit_status, emit_status_done, stop_watchers_for_roots, start_watchers_for_roots, scan_drive_into,
  drives_to_index, start_live_monitoring, Machine, Indexer, scanning, loading_index,
}

module _ (sys : Machine) where
  abbrev pub stage_all : List FileEntry → IndexStore → IndexStore
  stage_all [] store = store
  stage_all (e ∷ es) store = stage_all es (stage_entry e store)

  -- The entries of the drives, each scanned by a thread with its own reads of the flag.
  abbrev pub scanned : (ℕ → ℕ → Bool) → List WString → List FileEntry
  scanned reads [] = []
  scanned reads (d ∷ ds) = scan_drive_into sys (reads 0) d ++ scanned (λ i. reads (suc i)) ds

  abbrev pub write_file : Indexer → Indexer
  write_file s = record s { index_file = some (save (filetime_value sys.system_time) s.store) }

  -- `reads` is what the scanners' own reads of the flag give.
  unfoldable pub indexing_thread : (ℕ → Bool) → (ℕ → ℕ → Bool) → Indexer → Indexer
  unfolding emit_status emit_status_done start_live_monitoring
  indexing_thread seen reads s =
      let s = emit_status scanning (codes "Starting index build...") s in
      let entries = scanned reads (drives_to_index sys) in
      let store = end_write sys.towlower (stage_all entries (begin_write s.store)) in
      let s' =
        write_file (record s { store = store; files_indexed = s.files_indexed + length entries }) in
      let done =
        start_live_monitoring sys seen 1
          (emit_status_done s'.files_indexed sys.settings.selected_drives 0 s') in
      record (if seen 0 then s else done) { is_indexing = false }

  abbrev pub add_entries : List FileEntry → Indexer → Indexer
  add_entries [] s = s
  add_entries (e ∷ es) s =
      add_entries es
        (record s { store = apply_add sys.towlower e s.store; files_indexed = s.files_indexed + 1 })

  -- The loop over the new roots, with the number of reads of the cancel flag.
  unfoldable pub index_roots :
      (ℕ → Bool) → (ℕ → ℕ → Bool) → ℕ → List WString → Indexer → ℕ × Indexer
  index_roots seen reads k [] s = (k, s)
  index_roots seen reads k (root ∷ roots) s =
      let rest =
        index_roots seen (λ i. reads (suc i)) (k + 1) roots
          (add_entries (scan_drive_into sys (reads 0) root) s) in
      if seen k then (k + 1, s) else rest

  unfoldable pub index_paths_thread : (ℕ → Bool) → (ℕ → ℕ → Bool) → List WString → Indexer → Indexer
  unfolding index_roots emit_status emit_status_done start_watchers_for_roots
  index_paths_thread seen reads paths s =
      let (k, s) =
        index_roots seen reads 0 paths (emit_status scanning (codes "Indexing new paths...") s) in
      let s' = write_file s in
      let done =
        start_watchers_for_roots seen (k + 1) paths
          (emit_status_done (get_entry_count s'.store) paths 0 s') in
      record (if seen k then s else done) { is_indexing = false }

  abbrev pub remove_roots : List WString → IndexStore → IndexStore
  remove_roots [] store = store
  remove_roots (root ∷ roots) store =
      remove_roots roots (remove_entries_under_path sys.towlower root store)

  unfoldable pub remove_paths_thread : List WString → Indexer → Indexer
  unfolding emit_status emit_status_done stop_watchers_for_roots
  remove_paths_thread paths s =
      let s = emit_status scanning (codes "Removing paths from index...") s in
      let s =
        write_file
          (stop_watchers_for_roots paths (record s { store = remove_roots paths s.store })) in
      record (emit_status_done (get_entry_count s.store) sys.settings.selected_drives 0 s) {
        is_indexing = false;
      }

  -- `StartIndexing`: whether the thread with `indexing_thread` is started, and the state before it.
  -- `written` is the last write time of the index file.
  abbrev pub start_thread : Indexer → Indexer × Bool
  start_thread s = (record s { cancelled = false; files_indexed = 0; is_indexing = true }, true)

  abbrev pub after_load : (ℕ → Bool) → ℕ → Indexer → Indexer × Bool
  after_load seen age s =
      let n = get_entry_count s.store in
      let loaded =
        start_live_monitoring sys seen 0 (emit_status_done n sys.settings.selected_drives age s) in
      if ltb 0 n
      then (loaded, false)
      else start_thread (emit_status scanning (codes "Index empty or corrupt - rebuilding...") s)

  unfoldable pub start_indexing :
      (ℕ → Bool) → Bool → Option FileTime → Indexer → Outcome (Indexer × Bool)
  unfolding emit_status emit_status_done start_live_monitoring
  start_indexing seen force written s =
      let now = sys.system_time in
      let loading = emit_status loading_index (codes "Loading index from disk...") s in
      let from_disk = load sys.towlower s.index_file s.store >>= λ store.
      ok (after_load seen (get_index_age_seconds written now) (record loading { store = store })) in
      if s.is_indexing
      then ok (s, false)
      else if not force && is_index_valid sys.settings.reindex_interval_hours written now
      then from_disk
      else ok (start_thread s)

  -- `IndexPaths` and `RemovePaths` start their threads the same way.
  unfoldable pub index_paths : (ℕ → Bool) → (ℕ → ℕ → Bool) → List WString → Indexer → Indexer
  unfolding index_paths_thread
  index_paths seen reads paths s =
      let started = index_paths_thread seen reads paths (start_thread s).0 in
      if s.is_indexing then s else started

  unfoldable pub remove_paths : List WString → Indexer → Indexer
  unfolding remove_paths_thread
  remove_paths paths s =
      let started =
        remove_paths_thread paths (record s { cancelled = false; is_indexing = true }) in
      if s.is_indexing then s else started
