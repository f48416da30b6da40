-- ===== src/Indexing/Lifecycle/Cancelled.antt =====
-- src/core/indexer/Indexer.cpp: how a thread that is cancelled ends.
use winindex.Prelude.{ℕ, Bool, [], ◌∷◌, codes}
use winindex.Indexing.Indexer.{Machine, Indexer, emit_status, scanning, scan_drive_into}
use winindex.Indexing.Indexer.Threads.{add_entries}
use winindex.Indexing.Lifecycle.{
  index_drives, add_paths, remove_under, Place, begins, builds, stores_drives, scans, stores_paths,
  clears, locks, built, written, saved,
}

-- All but the removal of paths, which does not read the flag.
abbrev pub Unkept : Place → Type 0
Unkept (begins (remove_under paths)) = ⊥
Unkept (clears paths roots) = ⊥
Unkept p = Unit

module _ (sys : Machine) where
  -- What the end of a thread leaves, from the state as it is cancelled. A thread behind a test of
  -- the flag ends the work that the test stands in front of.
  abbrev pub ended : (ℕ → ℕ → Bool) → Place → Indexer → Indexer
  ended reads (begins index_drives) c = emit_status scanning (codes "Starting index build...") c
  ended reads (begins (add_paths paths)) c = emit_status scanning (codes "Indexing new paths...") c
  ended reads (builds entries) c = written sys (built sys entries c)
  ended reads stores_drives c = written sys c
  ended reads (scans paths root roots) c = add_entries sys (scan_drive_into sys (reads 0) root) c
  ended reads (stores_paths paths) c = saved sys paths c
  ended reads (locks root roots) c = record c { watchers = root ∷ [] }
  ended reads p c = c
