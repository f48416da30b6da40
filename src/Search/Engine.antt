-- ===== src/Search/Engine.antt =====
-- src/core/search/ISearchEngine.h, SearchEngine.h, SearchEngine.cpp: what one entry has to match,
-- and the search over the pool. `towlower` and `iswalnum` are the C library's, the conversion to
-- UTF-8 is the system's, and RE2 is an argument.
pub mod Plain
pub mod Modes
use winindex.Prelude.{
  ℕ, zero, suc, ◌+◌, ◌-◌, ◌%◌, ◌^◌, Bool, true, false, not, ◌&&◌, ◌||◌, Option, none, some, List,
  [], ◌∷◌, ◌++◌, map, ltb, ◌==◌, if◌then◌else◌, length, get_elem?, WString,
}
use winindex.Storage.Pool.{EntryMeta, IndexPool, path_view, name_view, name_lower_view}
use winindex.Search.Simd.{simd_find_substring}
use winindex.Search.Tokens.{
  query_has_separators, tokenize_view, sort_tokens, all_query_tokens_present,
}
use winindex.Search.Workers.{
  SearchResult, SearchState, Event, Matcher, start_search, search_run, gather,
}

pub record SearchOptions : Type 0 where
  pub use_regex : Bool
  pub case_sensitive : Bool
  pub whole_word : Bool
  pub match_path : Bool
  pub ignore_diacritics : Bool

-- RE2 at a case option: whether a pattern compiles, whether it matches somewhere, and the byte
-- offset and length of its first group there.
pub record Regex : Type 0 where
  pub is_ok : Bool → List ℕ → Bool
  pub partial_match : Bool → List ℕ → List ℕ → Bool
  pub first_group : Bool → List ℕ → List ℕ → Option (ℕ × ℕ)

-- What the search takes from the system.
pub record Platform : Type 0 where
  pub towlower : ℕ → ℕ
  pub iswalnum : ℕ → Bool
  pub to_utf8 : WString → List ℕ
  pub regex : Regex
  pub avx2 : Bool

module _ (sys : Platform) where
  abbrev pub lower_text : WString → WString
  lower_text = map sys.towlower

  -- `isWordChar` of the character at a place, if there is one.
  abbrev pub is_word_char : Option ℕ → Bool
  is_word_char none = false
  is_word_char (some c) = sys.iswalnum c || c == b'_'

  unfoldable pub matches_whole_word : WString → ℕ → ℕ → Bool
  matches_whole_word text pos len =
      if ltb 0 pos && is_word_char (get_elem? text (pos - 1))
      then false
      else if ltb (pos + len) (length text) && is_word_char (get_elem? text (pos + len))
      then false
      else true

  abbrev pub lower_view : Option WString → Option WString
  lower_view none = none
  lower_view (some s) = some (lower_text s)

  -- The text that an entry is searched in; `none` is a read outside the pools.
  unfoldable pub haystack : SearchOptions → IndexPool → EntryMeta → Option WString
  haystack opts p m =
      if opts.match_path
      then (if opts.case_sensitive then path_view p m else lower_view (path_view p m))
      else if opts.case_sensitive
      then name_view p m
      else name_lower_view p m

  unfoldable pub needle_of : SearchOptions → WString → WString
  needle_of opts query = if opts.case_sensitive then query else lower_text query

  unfoldable pub does_token_match : SearchOptions → WString → Bool
  does_token_match opts query = not opts.case_sensitive && query_has_separators query

  abbrev pub substring_result : ℕ → ℕ → ℕ → SearchResult
  substring_result i pos len = record {
    entry_index = i % 2 ^ 32;
    match_start = pos % 2 ^ 32;
    match_len = len % 2 ^ 32;
  }

  -- After `SimdFindSubstring`: a hit must pass the whole-word test, a miss the token test.
  unfoldable pub judge : SearchOptions → WString → ℕ → WString → Option ℕ → Option SearchResult
  judge opts query i text (some pos) =
      let len = length (needle_of opts query) in
      if opts.whole_word && not (matches_whole_word text pos len)
      then none
      else some (substring_result i pos len)
  judge opts query i text none =
      let query_tokens = sort_tokens (tokenize_view (needle_of opts query)) in
      if does_token_match opts query
        && all_query_tokens_present query_tokens (sort_tokens (tokenize_view text))
      then some (substring_result i 0 0)
      else none

  abbrev pub in_text : Option WString → (WString → Option SearchResult) → Option SearchResult
  in_text none f = none
  in_text (some text) f = f text

  unfoldable pub substring_matcher : SearchOptions → WString → IndexPool → Matcher
  substring_matcher opts query p i m =
      in_text (haystack opts p m)
        (λ text. judge opts query i text (simd_find_substring sys.avx2 text (needle_of opts query)))

  -- The text that a regular expression is matched against.
  unfoldable pub regex_target : SearchOptions → IndexPool → EntryMeta → Option WString
  regex_target opts p m = if opts.match_path then path_view p m else name_view p m

  -- The whole-word test is applied to the byte offset and length of the group.
  unfoldable pub group_is_word : WString → Option (ℕ × ℕ) → Bool
  group_is_word text none = false
  group_is_word text (some (pos, len)) = matches_whole_word text pos len

  unfoldable pub regex_hits : SearchOptions → List ℕ → WString → Bool
  unfolding group_is_word
  regex_hits opts pattern text =
      let re = sys.regex in
      let grouped = (b'(' ∷ []) ++ (pattern ++ (b')' ∷ [])) in
      if opts.whole_word
      then re.is_ok opts.case_sensitive grouped
        && group_is_word text (re.first_group opts.case_sensitive grouped (sys.to_utf8 text))
      else re.partial_match opts.case_sensitive pattern (sys.to_utf8 text)

  unfoldable pub regex_matcher : SearchOptions → WString → IndexPool → Matcher
  unfolding regex_target regex_hits
  regex_matcher opts query p i m = in_text (regex_target opts p m) (λ text.
      if regex_hits opts (sys.to_utf8 query) text then some (substring_result i 0 0) else none)

  -- The results of one of the two loops, under a schedule of its threads.
  unfoldable pub search_with : Matcher → ℕ → ℕ → IndexPool → List Event → List SearchResult
  search_with matcher hw max_results p es =
      gather max_results (search_run matcher max_results (start_search hw p.metas) es)

  unfoldable pub search_substring :
      WString → SearchOptions → ℕ → ℕ → IndexPool → List Event → List SearchResult
  search_substring query opts hw max_results p es =
      search_with (substring_matcher opts query p) hw max_results p es

  unfoldable pub search_regex :
      WString → SearchOptions → ℕ → ℕ → IndexPool → List Event → List SearchResult
  search_regex query opts hw max_results p es =
      if sys.regex.is_ok opts.case_sensitive (sys.to_utf8 query)
      then search_with (regex_matcher opts query p) hw max_results p es
      else []

  unfoldable pub search :
      WString → SearchOptions → ℕ → ℕ → IndexPool → List Event → List SearchResult
  unfolding search_substring search_regex
  search query opts hw max_results p es =
      if ltb (length query) 2
      then []
      else if opts.use_regex
      then search_regex query opts hw max_results p es
      else search_substring query opts hw max_results p es
