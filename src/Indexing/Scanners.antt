-- ===== src/Indexing/Scanners.antt =====
-- src/core/indexer/FindFileScanner.cpp behind the interface of IFileSystemScanner.h, as
-- `Indexer::ScanDriveInto` calls it.
use winindex.Prelude.{ℕ, false, Option, none, some, List, [], ◌∷◌, WString}
use winindex.Storage.Pool.{FileEntry}
use winindex.Indexing.Indexer.{Scanner}
use winindex.Indexing.FindFile.{Volume, Scan, start_scan, scan_roots}

abbrev pub files_handed : Option Scan → List FileEntry
files_handed none = []
files_handed (some s) = s.files

abbrev pub excluding : List WString → Volume → Volume
excluding paths vol = record vol { excluded_paths = paths }

abbrev pub find_file_scanner : Volume → ℕ → Scanner
find_file_scanner vol fuel = record {
  is_mft_available = λ root. false;
  scan = λ seen root excluded.
      files_handed (scan_roots (excluding excluded vol) seen fuel (root ∷ []) start_scan);
}
