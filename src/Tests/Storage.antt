-- ===== src/Tests/Storage.antt =====
-- The index store, its pool and its file on concrete inputs.
use winindex.Prelude.{
  ℕ, ◌+◌, ◌≡◌, refl, ap, ◌≢◌, true, false, ◌&&◌, some, List, [], ◌∷◌, arith, leb, if◌then◌else◌,
  WString, codes,
}
use winindex.Storage.Pool.{
  FileEntry, EntryMeta, IndexPool, empty_pool, add_entry, file_name_start, entry_meta, lowered_name,
  name_source, size_of_diff,
}
use winindex.Storage.Pool.Bounds.{FitsEntry, HasRoom, IsWellFormed}
use winindex.Storage.Pool.Views.{entries}
use winindex.Storage.Store.{
  IndexStore, mark_all, mark_first, first_live, add_all, path_hits, path_under, renamed,
  with_separator, filetime_value, is_index_valid, get_index_age_seconds,
}
use winindex.Storage.Store.Spec.{
  Call, begins, stages, ends, adds, removes, renames, removes_under, step, run, spec_run, AllFit,
  view,
}
use winindex.Storage.Store.Refine.{run-refines}
use winindex.Storage.Store.Age.{future_is_stale}
use winindex.Storage.Serializer.{crc32, serialize}
use winindex.Storage.Serializer.Read.{ok, ◌>>=◌, deserialize}
use winindex.Storage.Serializer.Layout.{IsLaidOutPool}
use winindex.Storage.Serializer.RoundTrip.{FitsFile, rebuilt, deserialize-serialize}
use winindex.Storage.Persist.{load, save}
use winindex.Storage.Persist.Reload.{load-save_live, load-save_tombstone}

abbrev pub ascii_lower : ℕ → ℕ
ascii_lower c = if leb 65 c && leb c 90 then c + 32 else c

abbrev pub file_at : WString → ℕ → FileEntry
file_at path size = record {
  name = [];
  name_lower = [];
  path = path;
  size = size;
  last_modified = 7;
  attributes = 32;
}

abbrev first_meta : EntryMeta
first_meta = record {
  size = 3;
  last_modified = 7;
  path_offset = 0;
  name_lower_offset = 0;
  attributes = 32;
  path_len = 4;
  name_lower_len = 1;
  name_start = 3;
  deleted = false;
}

abbrev second_meta : EntryMeta
second_meta = record {
  size = 5;
  last_modified = 8;
  path_offset = 4;
  name_lower_offset = 1;
  attributes = 32;
  path_len = 6;
  name_lower_len = 1;
  name_start = 5;
  deleted = false;
}

abbrev two_paths : WString
two_paths = codes "C:\\AD:\\b\\C"

abbrev pub two_files : IndexPool
two_files = record {
  metas = first_meta ∷ (second_meta ∷ []);
  name_lower_pool = codes "ac";
  path_pool = two_paths;
}

abbrev one_removed : IndexPool
one_removed = record two_files {
  metas = (record first_meta { deleted = true }) ∷ (second_meta ∷ []);
}

abbrev pub store_of : IndexPool → IndexStore
store_of p = record { pool = p; usn_map = (codes "C:\\", 9) ∷ []; staging_buf = [] }

crc32_check : crc32 (codes "123456789") ≡ 3421780262
unfolding crc32
crc32_check = refl

two_files_built :
    add_entry ascii_lower
      (add_entry ascii_lower empty_pool (file_at (codes "C:\\A") 3))
      (record (file_at (codes "D:\\b\\C") 5) { last_modified = 8 })
    ≡ two_files
unfolding add_entry empty_pool entry_meta lowered_name name_source file_name_start size_of_diff
two_files_built = refl

pub two_files_WellFormed : IsWellFormed two_files
two_files_WellFormed = omega arith

two_files-HasRoom : HasRoom two_files
two_files-HasRoom = omega arith

file_fits : FitsEntry (file_at (codes "E:\\New.txt") 1)
file_fits = omega arith

abbrev some_calls : List Call
some_calls =
    begins
    ∷ (stages (file_at (codes "C:\\x\\One") 1)
        ∷ (stages (file_at (codes "C:\\Two") 2)
            ∷ (ends
                ∷ (adds (file_at (codes "C:\\x\\Three") 3)
                    ∷ (removes (codes "c:\\TWO")
                        ∷ (renames (codes "c:\\x\\one") (codes "D:\\One")
                            ∷ (removes_under (codes "C:\\X") ∷ [])))))))

some_calls_fit : AllFit ascii_lower (store_of two_files) some_calls
unfolding run step mark_all first_live mark_first add_entry add_all entry_meta path_hits path_under
    renamed with_separator lowered_name name_source file_name_start size_of_diff
some_calls_fit = omega arith

run-refines_example :
    IsWellFormed (run ascii_lower (store_of two_files) some_calls).pool
    × (view (run ascii_lower (store_of two_files) some_calls)
        ≡ spec_run ascii_lower (view (store_of two_files)) some_calls)
run-refines_example =
    run-refines ascii_lower (store_of two_files) some_calls some_calls_fit two_files_WellFormed

run_result :
    entries (run ascii_lower (store_of two_files) some_calls).pool
    ≡ (record { path = codes "D:\\One"; size = 1; last_modified = 7; attributes = 32 }) ∷ []
unfolding run step mark_all first_live mark_first add_entry add_all entry_meta path_hits path_under
    renamed with_separator lowered_name name_source file_name_start size_of_diff
run_result = refl

two_files_laid_out : IsLaidOutPool two_files
two_files_laid_out = omega arith

abbrev pub empty_store : IndexStore
empty_store = record {
  pool = record { metas = []; name_lower_pool = []; path_pool = [] };
  usn_map = [];
  staging_buf = [];
}

two_files-FitsFile : FitsFile two_files ((codes "C:\\", 9) ∷ [])
two_files-FitsFile = record {
  paths_fit = omega arith;
  paths_wide = omega arith;
  count_fits = omega arith;
  entries_fit = omega arith;
  usns_fit = omega arith;
  usns_apart = (tt, tt);
  usn_count_fits = omega arith;
}

one_removed-FitsFile : FitsFile one_removed ((codes "C:\\", 9) ∷ [])
one_removed-FitsFile = record {
  paths_fit = omega arith;
  paths_wide = omega arith;
  count_fits = omega arith;
  entries_fit = omega arith;
  usns_fit = omega arith;
  usns_apart = (tt, tt);
  usn_count_fits = omega arith;
}

deserialize-serialize_example :
    deserialize ascii_lower (some (serialize two_files ((codes "C:\\", 9) ∷ []) 100)) ≡ (
      rebuilt ascii_lower two_files ((codes "C:\\", 9) ∷ []) >>= λ r.
      ok (record { pool = r.0; usn_map = r.1; timestamp = 100 }))
deserialize-serialize_example =
    deserialize-serialize ascii_lower two_files ((codes "C:\\", 9) ∷ []) 100 two_files-FitsFile
      (omega arith)

load-save_live_example :
    (t' : IndexStore) × (load ascii_lower (some (save 100 (store_of two_files))) empty_store
      ≡ ok t')
    × (entries t'.pool ≡ entries two_files)
    × (t'.usn_map ≡ (codes "C:\\", 9) ∷ [])
    × IsWellFormed t'.pool
load-save_live_example =
    load-save_live ascii_lower 100 (store_of two_files) empty_store two_files-FitsFile (omega arith)
      (omega arith) (refl, (refl, tt))

abbrev first_code : WString → ℕ
first_code [] = 0
first_code (c ∷ cs) = c

differ : ◌≢◌ {A = ℕ} 67 68
differ e = omega arith

load-save_tombstone_example :
    (t' : IndexStore) × (load ascii_lower (some (save 100 (store_of one_removed))) empty_store
      ≡ ok t')
    × (entries t'.pool ≢ entries one_removed)
load-save_tombstone_example =
    load-save_tombstone ascii_lower 100 (store_of one_removed) empty_store one_removed-FitsFile
      (omega arith) (omega arith) (record first_meta { deleted = true }) second_meta [] refl refl
      refl (λ same. differ (ap first_code same))

future_is_stale_example :
    (is_index_valid 48 (some (record { high = 2; low = 0 })) (record { high = 1; low = 0 }) ≢ true)
    × (get_index_age_seconds (some (record { high = 2; low = 0 })) (record { high = 1; low = 0 })
        ≡ 0)
future_is_stale_example =
    future_is_stale 48 (record { high = 2; low = 0 }) (record { high = 1; low = 0 })
      (unfold filetime_value in omega arith) (unfold filetime_value in omega arith)
      (λ e. omega arith) (unfold filetime_value in omega arith)
