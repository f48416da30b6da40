-- ===== src/Indexing/FindFile.antt =====
-- src/core/indexer/FindFileScanner.h, FindFileScanner.cpp: the breadth-first scan of the
-- directories under a root. What FindFirstFileW and FindNextFileW give for a pattern is an argument,
-- and so is each read of the cancel flag: `seen k` is what its k-th read gives. `back()` of an
-- empty path is undefined in the source, and here no backslash.
pub mod Listing
pub mod Ends
pub mod Finds
pub mod Progress
use winindex.Prelude.{
  ℕ, zero, suc, ◌+◌, ◌*◌, ◌/◌, ◌%◌, ◌^◌, Bool, true, false, not, ◌&&◌, ◌||◌, Option, none, some,
  List, [], ◌∷◌, ◌++◌, ◌==◌, any, if◌then◌else◌, WString, codes, backslash, ends_with_char, wstr_eq,
  starts_with,
}
use winindex.Storage.Pool.{FileEntry}
use winindex.Storage.Store.{FileTime, filetime_value, lower}

pub record FindData : Type 0 where
  pub file_attributes : ℕ
  pub file_size_high : ℕ
  pub file_size_low : ℕ
  pub last_write_time : FileTime
  pub file_name : WString

-- A first handle with the entries behind it, or an error.
pub data Found : Type 0 where
  found : List FindData → Found
  access_denied other_error : Found

-- What a scan takes from the system, and its options.
pub record Volume : Type 0 where
  pub towlower : ℕ → ℕ
  pub find_files : WString → Found
  pub excluded_paths : List WString

-- The calls of `onFile` and of `onProgress`, the two counters, and the reads of the cancel flag.
pub record Scan : Type 0 where
  pub files : List FileEntry
  pub progress : List (ℕ × WString)
  pub files_found : ℕ
  pub skipped_count : ℕ
  pub reads : ℕ

abbrev pub start_scan : Scan
start_scan = record { files = []; progress = []; files_found = 0; skipped_count = 0; reads = 0 }

-- `if (path.back() != L'\\') path += L'\\';`
abbrev pub with_backslash : WString → WString
with_backslash path = if ends_with_char backslash path then path else path ++ backslash ∷ []

-- FILE_ATTRIBUTE_DIRECTORY and FILE_ATTRIBUTE_REPARSE_POINT are the bits of value 16 and 1024.
abbrev pub has_attribute : ℕ → FindData → Bool
has_attribute bit fd = fd.file_attributes / bit % 2 == 1

-- The two `continue`s at the head of the loop over the entries.
abbrev pub is_passed_over : FindData → Bool
is_passed_over fd =
    has_attribute 1024 fd || (wstr_eq fd.file_name (codes ".") || wstr_eq fd.file_name (codes ".."))

abbrev pub full_path : WString → FindData → WString
full_path current fd = with_backslash current ++ fd.file_name

abbrev pub skip : Scan → Scan
skip s = record s { skipped_count = s.skipped_count + 1 }

abbrev pub tick : Scan → Scan
tick s = record s { reads = s.reads + 1 }

module _ (vol : Volume) where
  unfoldable pub is_excluded : WString → Bool
  is_excluded path =
      let path_lower = lower vol.towlower path in
      any
        (λ excl.
          let excl_lower = lower vol.towlower excl in
          wstr_eq path_lower excl_lower || starts_with path_lower (with_backslash excl_lower))
        vol.excluded_paths

  unfoldable pub found_entry : WString → FindData → FileEntry
  found_entry current fd = record {
    name = fd.file_name;
    name_lower = lower vol.towlower fd.file_name;
    path = full_path current fd;
    size = fd.file_size_high * 2 ^ 32 + fd.file_size_low;
    last_modified = filetime_value fd.last_write_time;
    attributes = fd.file_attributes;
  }

  -- `onFile(fe)`, and `onProgress` after every 10000 files.
  unfoldable pub on_file : WString → FindData → Scan → Scan
  on_file current fd s =
      let n = s.files_found + 1 in
      record s {
        files = s.files ++ found_entry current fd ∷ [];
        files_found = n;
        progress = if n % 10000 == 0 then s.progress ++ (n, current) ∷ [] else s.progress;
      }

  -- The body of the loop over the entries, behind the read of the cancel flag.
  unfoldable pub visit_entry : WString → FindData → List WString × Scan → List WString × Scan
  visit_entry current fd (queue, s) =
      if is_passed_over fd
      then (queue, s)
      else if has_attribute 16 fd
      then (queue ++ full_path current fd ∷ [], s)
      else (queue, on_file current fd s)

  module _ (seen : ℕ → Bool) where
    unfoldable pub scan_entries :
        WString → List FindData → List WString → Scan → List WString × Scan
    unfolding visit_entry
    scan_entries current [] queue s = (queue, s)
    scan_entries current (fd ∷ fds) queue s = elim (seen s.reads) [
      | true ↦ (queue, tick s)
      | false ↦
          let (queue', s') = visit_entry current fd (queue, tick s) in
          scan_entries current fds queue' s'
    ]

    abbrev pub scan_found : WString → Found → List WString → Scan → List WString × Scan
    scan_found current (found fds) queue s = scan_entries current fds queue s
    scan_found current access_denied queue s = (queue, skip s)
    scan_found current other_error queue s = (queue, s)

    -- One round of the `while` loop, with the directory taken off the queue.
    unfoldable pub scan_one : WString → List WString → Scan → List WString × Scan
    scan_one current queue s =
        if is_excluded current
        then (queue, skip s)
        else scan_found current (vol.find_files (with_backslash current ++ codes "*")) queue s

    -- The `while` loop; the fuel counts its rounds, and `none` is a loop that has not ended.
    unfoldable pub scan_queue : ℕ → List WString → Scan → Option Scan
    unfolding scan_one
    scan_queue fuel [] s = some s
    scan_queue zero (current ∷ queue) s = none
    scan_queue (suc fuel) (current ∷ queue) s = elim (seen s.reads) [
      | true ↦ some (tick s)
      | false ↦ let (queue', s') = scan_one current queue (tick s) in scan_queue fuel queue' s'
    ]

    unfoldable pub scan_directory : ℕ → WString → Scan → Option Scan
    unfolding scan_queue
    scan_directory fuel dir = scan_queue fuel (dir ∷ [])

    abbrev pub and_then : Option Scan → (Scan → Option Scan) → Option Scan
    and_then none f = none
    and_then (some s) f = f s

    -- The loop of `Scan` over the roots.
    unfoldable pub scan_roots : ℕ → List WString → Scan → Option Scan
    unfolding scan_directory
    scan_roots fuel [] s = some s
    scan_roots fuel (root ∷ roots) s =
        let rest = and_then (scan_directory fuel root (tick s)) (scan_roots fuel roots) in
        if seen s.reads then some (tick s) else rest
