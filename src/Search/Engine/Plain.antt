-- ===== src/Search/Engine/Plain.antt =====
-- The search with the default options: what it returns, from the query to the list of results.
use mathlib.Core.Path.{fun_ext, sym}
use mathlib.Core.Option.{some-injective}
use winindex.Prelude.{
  ℕ, ◌≤◌, ◌<◌, ◌≡◌, refl, ap, ◌∙◌, false, Option, none, some, List, arith, ltb, length, length-map,
  All, WString, ◌%◌, ◌^◌,
}
use winindex.Storage.Pool.{EntryMeta, IndexPool, name_lower_view}
use winindex.Search.Simd.{simd_find_substring}
use winindex.Search.Simd.First.{first_occurrence, simd_find_substring-first_occurrence}
use winindex.Search.Tokens.{query_has_separators}
use winindex.Search.Workers.{SearchResult, Event, matches_in, Matcher}
use winindex.Search.Workers.Chunks.{Finished}
use winindex.Search.Workers.Results.{gather-matches_in, final_state}
use winindex.Search.Engine.{
  SearchOptions, Platform, lower_text, haystack, needle_of, does_token_match, judge, in_text,
  substring_matcher, search_with, search,
}

-- No option is set.
abbrev pub plain : SearchOptions
plain = record {
  use_regex = false;
  case_sensitive = false;
  whole_word = false;
  match_path = false;
  ignore_diacritics = false;
}

-- The first place of the lowercased query in the lowercased name, with the query's length.
abbrev at_place : ℕ → ℕ → Option ℕ → Option SearchResult
at_place i len none = none
at_place i len (some pos) =
    some (record { entry_index = i % 2 ^ 32; match_start = pos % 2 ^ 32; match_len = len % 2 ^ 32 })

abbrev in_name : Option WString → (WString → Option SearchResult) → Option SearchResult
in_name none f = none
in_name (some name) f = f name

abbrev pub occurs_in_name : Platform → WString → IndexPool → Matcher
occurs_in_name sys query p i m =
    in_name (name_lower_view p m)
      (λ name. at_place i (length query) (first_occurrence (lower_text sys query) name))

-- A match carries the index of its entry, cut to 32 bits.
pub occurs_in_name-index :
    (sys : Platform) (query : WString) (p : IndexPool) (i : ℕ) (m : EntryMeta) (r : SearchResult)
    → occurs_in_name sys query p i m ≡ some r
    → r.entry_index ≡ i % 2 ^ 32
occurs_in_name-index sys query p i m r h = of_view (name_lower_view p m) h
  where
    of_place : (o : Option ℕ) → at_place i (length query) o ≡ some r → r.entry_index ≡ i % 2 ^ 32
    of_place none h = absurd cc
    of_place (some pos) h = ap (λ (x : SearchResult). x.entry_index) (sym (some-injective _ r h))

    of_view :
        (o : Option WString)
        → in_name o
            (λ name. at_place i (length query) (first_occurrence (lower_text sys query) name))
          ≡ some r
        → r.entry_index ≡ i % 2 ^ 32
    of_view none h = absurd cc
    of_view (some name) h = of_place (first_occurrence (lower_text sys query) name) h

module _ (sys : Platform) (query : WString) (p : IndexPool)
    (one_word : query_has_separators query ≡ false) where
  judge-at_place :
      (i : ℕ) (text : WString) (o : Option ℕ)
      → judge sys plain query i text o ≡ at_place i (length query) o
  unfolding judge needle_of does_token_match
  judge-at_place i text none = rw one_word
  judge-at_place i text (some pos) = rw (length-map sys.towlower query)

  substring_matcher-occurs_in_name :
      (i : ℕ) (m : EntryMeta)
      → substring_matcher sys plain query p i m ≡ occurs_in_name sys query p i m
  unfolding substring_matcher haystack needle_of
  substring_matcher-occurs_in_name i m = in_either (name_lower_view p m)
    where
      in_either :
          (o : Option WString)
          → in_text sys o (λ text.
            judge sys plain query i text
              (simd_find_substring sys.avx2 text (needle_of sys plain query)))
            ≡ in_name o
                (λ name. at_place i (length query) (first_occurrence (lower_text sys query) name))
      in_either none = refl
      in_either (some text) =
          judge-at_place i text _
          ∙ ap (at_place i (length query))
              (simd_find_substring-first_occurrence sys.avx2 text (lower_text sys query))

  matcher_is : substring_matcher sys plain query p ≡ occurs_in_name sys query p
  matcher_is = fun_ext (λ i. fun_ext (substring_matcher-occurs_in_name i))

  -- For a query of two characters or more without separators, and no option set, a search whose
  -- workers are all done, that is not cancelled and has fewer matches than `max_results` returns,
  -- in order, exactly the live entries whose lowercased name contains the lowercased query, each
  -- with the first place of it and the query's length: whichever instruction set the processor
  -- has, and under every number of threads and every schedule.
  pub search-plain :
      (hw max_results : ℕ) (es : List Event)
      → 2 ≤ length query
      → All Finished
          (final_state (substring_matcher sys plain query p) hw max_results p.metas es).workers
      → (final_state (substring_matcher sys plain query p) hw max_results p.metas es).cancelled
        ≡ false
      → length (matches_in (occurs_in_name sys query p) 0 p.metas) < max_results
      → search sys query plain hw max_results p es
        ≡ matches_in (occurs_in_name sys query p) 0 p.metas
  unfolding search search_with
  search-plain hw max_results es long done calm few =
      let two : ltb (length query) 2 ≡ false = ground arith in
      let same = ap (λ (f : Matcher). matches_in f 0 p.metas) matcher_is in
      rw two (
        gather-matches_in (substring_matcher sys plain query p) hw max_results p.metas es done calm
          (omega (arith, ap length same))
        ∙ same)
