-- ===== src/Indexing/Lifecycle.antt =====
-- src/core/indexer/Indexer.cpp: the indexer under any interleaving of its threads with the calls of
-- the window and the notifications of the watchers. A thread is the place in its body that it has
-- reached; between two places it reads or sets the cancel flag, holds a lock or changes the store
-- once. A root that is scanned with its entries applied, and the scan threads up to their join, are
-- one step; what the scanners' own reads of the flag give is part of the event.
pub mod Outcomes
pub mod Watched
pub mod Exclusive
pub mod Ends
pub mod Stuck
pub mod Cancels
pub mod Cancelled
pub mod Whole
use winindex.Prelude.{
  ℕ, zero, suc, ◌+◌, Bool, true, false, Option, none, some, List, [], ◌∷◌, ◌++◌, if◌then◌else◌,
  length, WString, codes,
}
use winindex.Storage.Pool.{FileEntry}
use winindex.Storage.Store.{
  FileTime, get_entry_count, begin_write, end_write, remove_entries_under_path,
}
use winindex.Storage.Serializer.Read.{Outcome, ok, ◌>>=◌}
use winindex.Indexing.Indexer.{
  emit_status, emit_status_done, stop_watchers_for_roots, is_root, scan_drive_into, drives_to_index,
  apply_change, cancel, Machine, Indexer, FileChangeEvent, scanning,
}
use winindex.Indexing.Indexer.Threads.{
  stage_all, scanned, write_file, add_entries, start_thread, start_indexing,
}

-- IndexingThread, IndexPathsThread and RemovePathsThread.
pub data Job : Type 0 where
  index_drives : Job
  add_paths remove_under : List WString → Job

-- Where a thread is: at its start; before the test of the flag behind the join, behind that test, and
-- before Save; in the loop over the new roots before it reads the flag, and before it scans a root;
-- before the test behind that loop, and before Save; in the loop over the removed roots; in
-- StartWatchersForRoots before it reads the flag, and before it takes the lock; before SetEvent.
pub data Place : Type 0 where
  begins : Job → Place
  writes builds : List FileEntry → Place
  stores_drives : Place
  adds : List WString → List WString → Place
  scans : List WString → WString → List WString → Place
  saves stores_paths : List WString → Place
  clears : List WString → List WString → Place
  watches : List WString → Place
  locks : WString → List WString → Place
  sets : Place

pub record System : Type 0 where
  pub indexer : Indexer
  pub threads : List Place

-- What happens next: the k-th thread runs, the window calls StartIndexing, IndexPaths, RemovePaths
-- or Cancel, or a watcher of a root notices a change. The flag of the calls is whether CreateThread
-- succeeds. StartIndexing, whose own work needs that no thread is at work, is one step.
pub data Event : Type 0 where
  thread_runs : ℕ → (ℕ → ℕ → Bool) → Event
  starts : Bool → Option FileTime → Bool → Event
  indexes removes : List WString → Bool → Event
  cancels : Event
  changes : WString → FileChangeEvent → Event

abbrev pub watch_root : WString → Indexer → Indexer
watch_root root s = record s {
  watchers = if is_root root s.watchers then s.watchers else s.watchers ++ (root ∷ []);
}

abbrev pub put_back : Option Place → List Place → List Place
put_back none threads = threads
put_back (some place) threads = place ∷ threads

-- CreateThread, which may fail.
abbrev pub launch : Bool → Job → System → System
launch created job t = if created then record t { threads = t.threads ++ (begins job ∷ []) } else t

-- What `start_indexing` comes to.
abbrev pub after_start : Bool → List Place → Indexer × Bool → System
after_start created threads (s, started) =
    let t : System = record { indexer = s; threads = threads } in
    if started then launch created index_drives t else t

-- IndexPaths and RemovePaths, which prepare the fields and start their thread.
unfoldable pub request : Bool → Job → Indexer → System → System
request created job prepared t =
    if t.indexer.is_indexing then t else launch created job (record t { indexer = prepared })

module _ (sys : Machine) where
  abbrev pub begin : (ℕ → ℕ → Bool) → Job → Indexer → Option Place × Indexer
  begin reads index_drives s = (
    some (writes (scanned sys reads (drives_to_index sys))),
    emit_status scanning (codes "Starting index build...") s,
  )
  begin reads (add_paths paths) s =
      (some (adds paths paths), emit_status scanning (codes "Indexing new paths...") s)
  begin reads (remove_under paths) s =
      (some (clears paths paths), emit_status scanning (codes "Removing paths from index...") s)

  -- BeginWrite, AddEntry for each entry, and EndWrite.
  abbrev pub built : List FileEntry → Indexer → Indexer
  built entries s = record s {
    store = end_write sys.towlower (stage_all sys entries (begin_write s.store));
    files_indexed = s.files_indexed + length entries;
  }

  abbrev pub written : Indexer → Indexer
  written s =
      let s' = write_file sys s in
      emit_status_done s'.files_indexed sys.settings.selected_drives 0 s'

  abbrev pub saved : List WString → Indexer → Indexer
  saved paths s =
      let s' = write_file sys s in emit_status_done (get_entry_count s'.store) paths 0 s'

  abbrev pub cleared : List WString → Indexer → Indexer
  cleared paths s =
      let s' = write_file sys (stop_watchers_for_roots paths s) in
      emit_status_done (get_entry_count s'.store) sys.settings.selected_drives 0 s'

  -- One step of a thread; `none` is its end.
  unfoldable pub thread_step : (ℕ → ℕ → Bool) → Place → Indexer → Option Place × Indexer
  unfolding emit_status emit_status_done stop_watchers_for_roots
  thread_step reads (begins job) s = begin reads job s
  thread_step reads (writes entries) s =
      if s.cancelled then (some sets, s) else (some (builds entries), s)
  thread_step reads (builds entries) s = (some stores_drives, built entries s)
  thread_step reads stores_drives s = (some (watches (drives_to_index sys)), written s)
  thread_step reads (adds paths []) s = (some (saves paths), s)
  thread_step reads (adds paths (root ∷ roots)) s =
      if s.cancelled then (some (saves paths), s) else (some (scans paths root roots), s)
  thread_step reads (scans paths root roots) s =
      (some (adds paths roots), add_entries sys (scan_drive_into sys (reads 0) root) s)
  thread_step reads (saves paths) s =
      if s.cancelled then (some sets, s) else (some (stores_paths paths), s)
  thread_step reads (stores_paths paths) s = (some (watches paths), saved paths s)
  thread_step reads (clears paths []) s = (some sets, cleared paths s)
  thread_step reads (clears paths (root ∷ roots)) s = (
    some (clears paths roots),
    record s { store = remove_entries_under_path sys.towlower root s.store },
  )
  thread_step reads (watches []) s = (some sets, s)
  thread_step reads (watches (root ∷ roots)) s =
      if s.cancelled then (some sets, s) else (some (locks root roots), s)
  thread_step reads (locks root roots) s = (some (watches roots), watch_root root s)
  thread_step reads sets s = (none, record s { is_indexing = false })

  -- A step of the k-th thread.
  unfoldable pub run_thread : ℕ → (ℕ → ℕ → Bool) → List Place → Indexer → List Place × Indexer
  unfolding thread_step
  run_thread k reads [] s = ([], s)
  run_thread zero reads (place ∷ threads) s =
      let (next, s') = thread_step reads place s in (put_back next threads, s')
  run_thread (suc k) reads (place ∷ threads) s =
      let (threads', s') = run_thread k reads threads s in (place ∷ threads', s')

  -- A change reaches the store if its root is watched.
  unfoldable pub step : Event → System → Outcome System
  unfolding run_thread request
  step (thread_runs k reads) t =
      let (threads, s) = run_thread k reads t.threads t.indexer in
      ok (record { indexer = s; threads = threads })
  step (starts force file_time created) t =
      start_indexing sys (λ _. t.indexer.cancelled) force file_time t.indexer >>= λ r.
      ok (after_start created t.threads r)
  step (indexes paths created) t =
      ok (request created (add_paths paths) (start_thread sys t.indexer).0 t)
  step (removes paths created) t =
      let s = t.indexer in
      let prepared = record s { cancelled = false; is_indexing = true } in
      ok (request created (remove_under paths) prepared t)
  step cancels t = ok (record t { indexer = cancel t.indexer })
  step (changes root evt) t = ok (
      if is_root root t.indexer.watchers
      then record t { indexer = record t.indexer { store = apply_change sys evt t.indexer.store } }
      else t)

  unfoldable pub run : List Event → System → Outcome System
  unfolding step
  run [] t = ok t
  run (e ∷ es) t = step e t >>= λ t'. run es t'
