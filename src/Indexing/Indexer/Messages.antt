-- ===== src/Indexing/Indexer/Messages.antt =====
-- src/core/indexer/Indexer.cpp: what `ScanDriveInto` sends to the status callback for a root, by the
-- calls of `onProgress` that the scanner makes.
use winindex.Prelude.{
  ℕ, ◌≡◌, ◌≤◌, refl, sym, ◌∙◌, ap, Bool, true, false, some, List, [], ◌∷◌, ◌++◌, map, WString,
  codes, length,
}
use winindex.Config.Format.{to_decimal}
use winindex.Indexing.Indexer.{IndexerStatus, scanning, Machine, is_ntfs}
use winindex.Indexing.FindFile.{Volume, Scan, start_scan, scan_roots}
use winindex.Indexing.FindFile.Ends.{IsTree, scan_roots-ends}
use winindex.Indexing.FindFile.Progress.{multiples, scan_roots-ReportsMultiples}

abbrev pub scanning_status : WString → ℕ → IndexerStatus
scanning_status message count = record {
  state = scanning;
  message = message;
  files_indexed = count;
  skipped_paths = 0;
  locations = [];
  index_age_seconds = 0;
}

-- The end of the first message: whether the drive is NTFS, and its table available.
abbrev pub mode_text : Bool → Bool → WString
mode_text true true = codes " (MFT mode)..."
mode_text true false = codes " (standard mode - run as administrator for faster MFT scan)..."
mode_text false available = codes " (FAT32)..."

abbrev pub count_message : WString → ℕ → WString
count_message root count =
    codes "Indexing " ++ (root ++ (codes "... " ++ (to_decimal count ++ codes " files")))

unfoldable pub scan_statuses : Machine → WString → List (ℕ × WString) → List IndexerStatus
unfolding to_decimal
scan_statuses sys root progress =
    let mode =
      mode_text (is_ntfs sys (sys.get_filesystem root)) (sys.mft_scanner.is_mft_available root) in
    scanning_status (codes "Indexing " ++ (root ++ mode)) 0
    ∷ map (λ (p : ℕ × WString). scanning_status (count_message root p.0) p.0) progress

scan_statuses-files_indexed :
    (root : WString) (progress : List (ℕ × WString))
    → let sent = map (λ (p : ℕ × WString). scanning_status (count_message root p.0) p.0) progress in
      map (λ (t : IndexerStatus). t.files_indexed) sent ≡ map (λ (p : ℕ × WString). p.0) progress
scan_statuses-files_indexed root [] = refl
scan_statuses-files_indexed root (p ∷ ps) = ap (λ l. p.0 ∷ l) (scan_statuses-files_indexed root ps)

-- If the directories, without reparse points, form a tree whose size `weight` bounds and the fuel
-- is at least the bound of the root, then the breadth-first scan of a root ends, whatever the
-- reads of the cancel flag give, and the counts of files in the statuses that ScanDriveInto sends
-- for its calls of onProgress are 0 and then the multiples of 10000 up to the number of files
-- handed on, each once and in order.
pub scan_statuses-multiples :
    (sys : Machine) (vol : Volume) (seen : ℕ → Bool) (weight : WString → ℕ) (fuel : ℕ)
    (root : WString)
    → IsTree vol weight
    → weight root ≤ fuel
    → (s : Scan) × (scan_roots vol seen fuel (root ∷ []) start_scan ≡ some s)
      × (map (λ (t : IndexerStatus). t.files_indexed) (scan_statuses sys root s.progress)
          ≡ 0 ∷ multiples (length s.files))
unfolding scan_statuses
scan_statuses-multiples sys vol seen weight fuel root tree enough =
    let (s, ended) =
      scan_roots-ends vol seen weight tree fuel (root ∷ []) start_scan (enough, tt) in
    let (reported, counted) = scan_roots-ReportsMultiples vol seen fuel (root ∷ []) s ended in
    (
      s,
      ended,
      ap (λ (l : List ℕ). 0 ∷ l)
          (scan_statuses-files_indexed root s.progress ∙ (reported ∙ ap multiples (sym counted))),
    )
