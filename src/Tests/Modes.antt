-- ===== src/Tests/Modes.antt =====
-- Searches for tokens and for whole words.
use winindex.Prelude.{
  ◌<◌, ◌≡◌, ◌&&◌, leb, refl, true, false, none, some, [], ◌∷◌, arith, All, length, codes,
}
use winindex.Storage.Pool.{name_lower_view}
use winindex.Search.Simd.{
  simd_find_substring, sse2_find, block_find, block_loop, block, mask_loop, bit_scan_forward,
  clear_lowest, tail_loop,
}
use winindex.Search.Simd.First.{first_occurrence}
use winindex.Search.Tokens.{
  query_has_separators, tokenize_view, sort_tokens, insert_token, wstr_lt, binary_search,
  all_query_tokens_present,
}
use winindex.Search.Workers.{
  matches_in, start_search, search_run, make_workers, search_step, work_at, work, visit,
}
use winindex.Search.Workers.Chunks.{Finished}
use winindex.Search.Workers.Results.{final_state}
use winindex.Search.Engine.{
  SearchOptions, Platform, substring_matcher, search, haystack, needle_of, judge, does_token_match,
}
use winindex.Search.Engine.Plain.{plain}
use winindex.Search.Engine.Modes.{finds, finds_in, search-finds}
use winindex.Tests.Search.{platform, draft, alone}

abbrev words : SearchOptions
words = record plain { whole_word = true }

-- The tokens of the name `Draft.md`, the other way round.
tokens_done :
    All Finished
      (final_state
        (substring_matcher platform words (codes "MD Draft") draft)
        1
        9
        draft.metas
        alone).workers
    × ((final_state
          (substring_matcher platform words (codes "MD Draft") draft)
          1
          9
          draft.metas
          alone).cancelled
        ≡ false)
unfolding start_search search_run make_workers search_step work_at work visit substring_matcher
    haystack needle_of judge does_token_match simd_find_substring sse2_find block_find block_loop
    block mask_loop bit_scan_forward clear_lowest tail_loop name_lower_view query_has_separators
    tokenize_view sort_tokens insert_token wstr_lt binary_search all_query_tokens_present
tokens_done = (((refl, refl), tt), refl)

tokens_few : length (matches_in (finds platform words (codes "MD Draft") draft) 0 draft.metas) < 9
unfolding first_occurrence name_lower_view haystack needle_of query_has_separators tokenize_view
tokens_few = omega arith

search-finds_example :
    search platform (codes "MD Draft") words 1 9 draft alone
    ≡ matches_in (finds platform words (codes "MD Draft") draft) 0 draft.metas
search-finds_example =
    search-finds platform (codes "MD Draft") words 1 9 draft alone (omega arith) refl tokens_done.0
      tokens_done.1 tokens_few

tokens_found :
    matches_in (finds platform words (codes "MD Draft") draft) 0 draft.metas
    ≡ (record { entry_index = 0; match_start = 0; match_len = 0 }) ∷ []
unfolding first_occurrence name_lower_view haystack needle_of query_has_separators tokenize_view
tokens_found = refl

abbrev lettered : Platform
lettered = record platform { iswalnum = λ c. leb b'a' c && leb c b'z' }

-- Only the first place counts: the word at the end of the name is not found.
later_word_missed :
    finds_in lettered words (codes "cat") (codes "cat") 0 (some (codes "concat cat")) ≡ none
unfolding first_occurrence needle_of
later_word_missed = refl
