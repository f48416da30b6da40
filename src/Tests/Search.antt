-- ===== src/Tests/Search.antt =====
-- The search on concrete inputs.
use winindex.Prelude.{
  ◌≤◌, ◌<◌, ◌≡◌, refl, true, false, ◌==◌, if◌then◌else◌, none, some, List, [], ◌∷◌, arith, All,
  length, In, codes,
}
use winindex.Storage.Pool.{EntryMeta, IndexPool, name_lower_view}
use winindex.Search.Simd.{
  simd_find_substring, sse2_find, avx2_find, block_find, block_loop, block, mask_loop,
  bit_scan_forward, clear_lowest, tail_loop,
}
use winindex.Search.Simd.First.{first_occurrence, simd_find_substring-first_occurrence}
use winindex.Search.Tokens.{query_has_separators}
use winindex.Search.Workers.{
  Event, runs, cancels, Matcher, matches_in, gather, start_search, search_run, make_workers,
  search_step, work_at, work, visit,
}
use winindex.Search.Workers.Chunks.{Finished}
use winindex.Search.Workers.Results.{final_state, gather_sound}
use winindex.Search.Engine.{
  Platform, substring_matcher, search, haystack, needle_of, judge, does_token_match,
}
use winindex.Search.Workers.Progress.{all_left, schedule_finishes}
use winindex.Search.Engine.Plain.{plain, occurs_in_name, search-plain}
use winindex.Tests.Storage.{ascii_lower, two_files}

simd_find_substring-first_occurrence_example :
    simd_find_substring false (codes "the index of an index") (codes "index")
    ≡ first_occurrence (codes "index") (codes "the index of an index")
simd_find_substring-first_occurrence_example =
    simd_find_substring-first_occurrence false (codes "the index of an index") (codes "index")

sse2_find_run : sse2_find (codes "the index of an index") (codes "an index") ≡ some 13
unfolding sse2_find block_find block_loop block mask_loop bit_scan_forward clear_lowest tail_loop
sse2_find_run = refl

avx2_find_run : avx2_find (codes "the index of an index") (codes "index!") ≡ none
unfolding avx2_find block_find block_loop block mask_loop bit_scan_forward clear_lowest tail_loop
avx2_find_run = refl

abbrev metas : List EntryMeta
metas = two_files.metas

-- Matches the entries of size 5.
abbrev of_size_5 : Matcher
of_size_5 i m =
    if m.size == 5 then some (record { entry_index = i; match_start = 0; match_len = 0 }) else none

-- Two workers, the second one first.
abbrev interleaved : List Event
interleaved = runs 1 ∷ (runs 0 ∷ (runs 1 ∷ (runs 0 ∷ (runs 1 ∷ []))))

gather_sound_example :
    (length (gather 1 (final_state of_size_5 2 1 metas (runs 1 ∷ (cancels ∷ (runs 1 ∷ []))))) ≤ 1)
    × All
        (λ r. In r (matches_in of_size_5 0 metas))
        (gather 1 (final_state of_size_5 2 1 metas (runs 1 ∷ (cancels ∷ (runs 1 ∷ [])))))
gather_sound_example = gather_sound of_size_5 2 1 metas (runs 1 ∷ (cancels ∷ (runs 1 ∷ [])))

interleaved_done :
    All Finished (final_state of_size_5 2 9 metas interleaved).workers
    × ((final_state of_size_5 2 9 metas interleaved).cancelled ≡ false)
unfolding start_search search_run make_workers search_step work_at work visit
interleaved_done = (((refl, refl), ((refl, refl), tt)), refl)

abbrev pub platform : Platform
platform = record {
  towlower = ascii_lower;
  iswalnum = λ c. true;
  to_utf8 = λ s. s;
  regex = record {
    is_ok = λ sensitive pattern. false;
    partial_match = λ sensitive pattern text. false;
    first_group = λ sensitive pattern text. none;
  };
  avx2 = false;
}

-- One file `Draft.md`, which the query `AFT` finds at place 2.
abbrev pub draft : IndexPool
draft = record {
  metas =
      (record {
        size = 1;
        last_modified = 2;
        path_offset = 0;
        name_lower_offset = 0;
        attributes = 32;
        path_len = 11;
        name_lower_len = 8;
        name_start = 3;
        deleted = false;
      })
      ∷ [];
  name_lower_pool = codes "draft.md";
  path_pool = codes "C:\\Draft.md";
}

abbrev pub alone : List Event
alone = runs 0 ∷ (runs 0 ∷ [])

pub draft_done :
    All Finished
      (final_state
        (substring_matcher platform plain (codes "AFT") draft)
        1
        9
        draft.metas
        alone).workers
    × ((final_state
          (substring_matcher platform plain (codes "AFT") draft)
          1
          9
          draft.metas
          alone).cancelled
        ≡ false)
unfolding start_search search_run make_workers search_step work_at work visit substring_matcher
    haystack needle_of judge does_token_match simd_find_substring sse2_find block_find block_loop
    block mask_loop bit_scan_forward clear_lowest tail_loop name_lower_view
draft_done = (((refl, refl), tt), refl)

pub draft_few : length (matches_in (occurs_in_name platform (codes "AFT") draft) 0 draft.metas) < 9
unfolding first_occurrence name_lower_view
draft_few = omega arith

pub no_separators : query_has_separators (codes "AFT") ≡ false
unfolding query_has_separators
no_separators = refl

search-plain_example :
    search platform (codes "AFT") plain 1 9 draft alone
    ≡ matches_in (occurs_in_name platform (codes "AFT") draft) 0 draft.metas
search-plain_example =
    search-plain platform (codes "AFT") draft no_separators 1 9 alone (omega arith) draft_done.0
      draft_done.1 draft_few

draft_found :
    matches_in (occurs_in_name platform (codes "AFT") draft) 0 draft.metas
    ≡ (record { entry_index = 0; match_start = 2; match_len = 3 }) ∷ []
unfolding first_occurrence name_lower_view
draft_found = refl

schedule_finishes_example :
    (es : List Event) × (length es ≤ all_left (start_search 2 metas).workers)
    × All Finished (search_run of_size_5 1 (start_search 2 metas) es).workers
    × ((search_run of_size_5 1 (start_search 2 metas) es).cancelled
        ≡ (start_search 2 metas).cancelled)
schedule_finishes_example = schedule_finishes of_size_5 1 (start_search 2 metas)
