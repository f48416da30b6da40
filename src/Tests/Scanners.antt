-- ===== src/Tests/Scanners.antt =====
-- The scanners on concrete inputs.
use winindex.Prelude.{
  map, ℕ, suc, ◌-◌, ◌≡◌, ◌≤◌, ◌<◌, refl, true, false, none, some, List, [], ◌∷◌, ◌++◌, ltb, ◌==◌,
  if◌then◌else◌, length, length-append, arith, WString, codes, backslash, ◌⊎◌, Bool-cases, inl, inr,
}
use winindex.Indexing.FindFile.{
  FindData, Found, found, Volume, Scan, start_scan, with_backslash, is_excluded, scan_roots,
}
use winindex.Indexing.FindFile.Ends.{IsTree}
use winindex.Indexing.Mft.{
  MftRecord, MftEntry, MftVolume, MftScan, entry_of, resolve_path, scan_volume, find_entry,
}
use winindex.Indexing.Mft.{start_scan as start_mft_scan}
use winindex.Indexing.Mft.Resolve.{IsPaths, IsForest, resolve_path-loops}
use winindex.Indexing.Mft.Emits.{add_named, add_reads, files_listed, scan_volume-listed}
use winindex.Tests.Storage.{ascii_lower}
use winindex.Indexing.Scanners.{find_file_scanner}
use winindex.Indexing.Indexer.{Machine, IndexerStatus, fat32}
use winindex.Indexing.Indexer.Messages.{scan_statuses, scan_statuses-multiples}
use winindex.Indexing.FindFile.Progress.{multiples}
use winindex.Tests.Config.{saved}
use winindex.Tests.Indexing.{machine}

abbrev find_data : WString → ℕ → FindData
find_data name attributes = record {
  file_attributes = attributes;
  file_size_high = 0;
  file_size_low = 4;
  last_write_time = record { high = 0; low = 9 };
  file_name = name;
}

-- Directories `s` in one another until the pattern has seven characters, with a file in each.
abbrev nested : WString → Found
nested pattern = found (
    if ltb (length pattern) 7
    then find_data (codes "a") 32 ∷ (find_data (codes "s") 16 ∷ [])
    else find_data (codes "a") 32 ∷ [])

abbrev volume : Volume
volume = record { towlower = ascii_lower; find_files = nested; excluded_paths = [] }

abbrev weight : WString → ℕ
weight dir = suc (8 - length (with_backslash dir))

with_backslash-le : (s : WString) → length s ≤ length (with_backslash s)
with_backslash-le s = ground (arith, length-append s (backslash ∷ []))

volume-IsTree : IsTree volume weight
unfolding is_excluded
volume-IsTree dir = elim (Bool-cases (ltb (length (with_backslash dir ++ codes "*")) 7)) [
  | inr leaf ↦ rw leaf (omega arith)
  | inl inner ↦
      let n : length (with_backslash dir) < 6 =
        ground (arith, length-append (with_backslash dir) (codes "*")) in
      let deeper : suc (length (with_backslash dir))
          ≤ length (with_backslash (with_backslash dir ++ codes "s")) =
        omega (
          arith,
          length-append (with_backslash dir) (codes "s"),
          with_backslash-le (with_backslash dir ++ codes "s"),
        ) in
      rw inner (omega arith)
]

abbrev drive : WString
drive = codes "D:\\"

-- The table of a volume: its root, a directory and a file in it that is listed twice.
abbrev mft_record : ℕ → ℕ → ℕ → WString → MftRecord
mft_record frn parent attributes name = record {
  file_reference_number = frn;
  parent_file_reference_number = parent;
  file_attributes = attributes;
  file_name = name;
}

abbrev table : List MftRecord
table =
    mft_record 7 5 32 (codes "old")
    ∷ (mft_record 5 5 16 (codes ".") ∷ (mft_record 6 5 16 (codes "s") ∷ []))

abbrev renamed : List MftRecord
renamed = mft_record 7 6 32 (codes "a") ∷ []

abbrev mft_volume : MftVolume
mft_volume = record {
  towlower = ascii_lower;
  can_open = true;
  reads = table ∷ (renamed ∷ []);
  order = λ es. es;
  excluded_paths = codes "d:\\temp" ∷ [];
}

abbrev path_to : ℕ → WString
path_to frn = if frn == 6 then codes "D:\\s\\" else if frn == 7 then codes "D:\\s\\a\\" else drive

abbrev depth_of : ℕ → ℕ
depth_of frn = if frn == 7 then 2 else if frn == 6 then 1 else 0

path_to-IsPaths : IsPaths (add_reads mft_volume.reads []) drive path_to
unfolding entry_of
path_to-IsPaths frn = (λ h. ground arith, λ e h. ground arith)

depth_of-IsForest : IsForest (add_reads mft_volume.reads []) depth_of
unfolding entry_of
depth_of-IsForest frn e h up = ground arith

scan_volume-listed_example :
    (s : MftScan) × (scan_volume mft_volume (λ k. false) drive 3 start_mft_scan ≡ some s)
    × (s.files ≡ files_listed mft_volume path_to (add_reads mft_volume.reads []))
scan_volume-listed_example =
    scan_volume-listed mft_volume (λ k. false) (λ k. refl) drive path_to depth_of 3 start_mft_scan
      refl path_to-IsPaths depth_of-IsForest (λ frn. ground arith)

-- Two directories that are each other's parents.
abbrev cycle : List MftRecord
cycle = mft_record 1 2 16 (codes "a") ∷ (mft_record 2 1 16 (codes "b") ∷ [])

abbrev InCycle : ℕ → Type 0
InCycle frn = (frn ≡ 1) ⊎ (frn ≡ 2)

cycle_closed :
    (frn : ℕ)
    → InCycle frn
    → (e : MftEntry) × (find_entry frn (add_named cycle []) ≡ some e)
      × ((e.parent_frn == frn) ≡ false)
      × InCycle e.parent_frn
unfolding entry_of
cycle_closed frn (inl p) = rw p (entry_of (mft_record 1 2 16 (codes "a")), refl, refl, inr refl)
cycle_closed frn (inr p) = rw p (entry_of (mft_record 2 1 16 (codes "b")), refl, refl, inl refl)

resolve_path-loops_example : resolve_path (add_named cycle []) drive 1000 1 ≡ none
resolve_path-loops_example =
    resolve_path-loops (add_named cycle []) drive InCycle cycle_closed 1000 1 (inl refl)

-- The scanner of this volume behind the indexer.
abbrev fat_machine : Machine
fat_machine = record machine {
  get_filesystem = λ root. fat32;
  find_scanner = find_file_scanner volume 6;
  settings = record saved { excluded_paths = [] };
}

scan_statuses-multiples_example :
    (s : Scan) × (scan_roots volume (λ k. k == 3) 6 (drive ∷ []) start_scan ≡ some s)
    × (map (λ (t : IndexerStatus). t.files_indexed) (scan_statuses fat_machine drive s.progress)
        ≡ 0 ∷ multiples (length s.files))
scan_statuses-multiples_example =
    scan_statuses-multiples fat_machine volume (λ k. k == 3) weight 6 drive volume-IsTree
      (omega arith)
