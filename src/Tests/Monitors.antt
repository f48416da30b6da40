-- ===== src/Tests/Monitors.antt =====
-- The journal, the watchers and the drives on concrete inputs.
use winindex.Prelude.{
  ℕ, ◌≡◌, refl, true, false, some, List, [], ◌∷◌, ◌++◌, ◌==◌, if◌then◌else◌, arith, WString, codes,
  wstr_eq, Bool-cases, inl, inr, map,
}
use winindex.Storage.Store.{filetime_value}
use winindex.Storage.Store.{mark_first, path_hits}
use winindex.Storage.Pool.{file_name_start}
use winindex.Storage.Store.Spec.{step, spec_run, AllFit, view}
use winindex.Indexing.Indexer.{build_entry}
use winindex.Indexing.Journal.{
  UsnRecord, Read, no_records, records_read, Journal, event_of, replay_since,
}
use winindex.Indexing.Journal.Replay.{ReadsLog, replay_since-log}
use winindex.Indexing.Watcher.{notified, ChangeWatcher, run_watch}
use winindex.Indexing.Watcher.Applied.{apply_changes, rename_pair, rename_calls, run_watch-renames}
use winindex.Indexing.Drives.{Drives}
use winindex.Tests.Storage.{ascii_lower, two_files, two_files_WellFormed, store_of}
use winindex.Tests.Indexing.{machine}

abbrev drive : WString
drive = codes "D:\\"

-- A journal of three records, read in two batches.
abbrev usn_record : ℕ → WString → UsnRecord
usn_record reason name = record { reason = reason; file_name = name }

abbrev front : List UsnRecord
front = usn_record 256 (codes "a") ∷ (usn_record 4096 (codes "b") ∷ [])

abbrev back : List UsnRecord
back = usn_record 8192 (codes "c") ∷ []

abbrev journal_log : ℕ → List UsnRecord
journal_log usn = if usn == 0 then front ++ back else if usn == 80 then back else []

abbrev journal_read : ℕ → Read
journal_read usn =
    if usn == 0
    then records_read 80 front
    else if usn == 80
    then records_read 120 back
    else no_records

abbrev journal : Journal
journal = record { can_open = true; can_query = true; read = λ k usn. journal_read usn }

journal_reads : ReadsLog journal journal_log
journal_reads k usn = elim (Bool-cases (usn == 0)) [
  | inl first ↦ rw first (inr (80, front, refl, refl, omega arith))
  | inr later ↦ elim (Bool-cases (usn == 80)) [
    | inl second ↦ rw (later, second) (inr (120, back, refl, refl, omega arith))
    | inr over ↦ rw (later, over) (inl (refl, refl))
  ]
]

replay_since-log_example :
    (last : ℕ) × (replay_since journal drive 4 0
      ≡ some (record { last_usn = last; events = map (event_of drive) (journal_log 0) }))
    × (journal_log last ≡ [])
replay_since-log_example =
    replay_since-log journal drive journal_log 0 4 refl journal_reads (omega arith)

abbrev watcher : ChangeWatcher
watcher = record {
  root = drive;
  has_dir = true;
  has_stop_event = true;
  stop = false;
  has_thread = true;
}

rename_fits :
    AllFit ascii_lower
      (store_of two_files)
      (rename_calls machine drive (codes "b\\c") (codes "b\\C"))
unfolding step mark_first path_hits build_entry file_name_start filetime_value
rename_fits = omega arith

run_watch-renames_example :
    view (
      apply_changes machine
        (run_watch (λ k. false) (notified (rename_pair (codes "b\\c") (codes "b\\C")) ∷ []) watcher)
        (store_of two_files))
    ≡ spec_run ascii_lower
        (view (store_of two_files))
        (rename_calls machine drive (codes "b\\c") (codes "b\\C"))
run_watch-renames_example =
    run_watch-renames machine (λ k. false) watcher (codes "b\\c") (codes "b\\C")
      (store_of two_files) refl refl rename_fits two_files_WellFormed

-- A system drive, one with a foreign file system, and a stick.
abbrev drives : Drives
drives = record {
  filesystem_name = λ root.
      if wstr_eq root (codes "C:\\")
      then some (codes "NTFS")
      else if wstr_eq root (codes "E:\\")
      then some (codes "FAT32")
      else some (codes "ext4");
  volume_label = λ root. codes "disk";
  logical_drives = 28;
  drive_type = λ root. if wstr_eq root (codes "E:\\") then 2 else 3;
}
