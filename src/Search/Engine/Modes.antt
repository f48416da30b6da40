-- ===== src/Search/Engine/Modes.antt =====
-- The search for a text under every choice of case, whole words and full path: what it returns, from
-- the query to the list of results.
use mathlib.Core.Path.{fun_ext}
use mathlib.Core.Option
use winindex.Prelude.{
  ℕ, zero, suc, ◌+◌, ◌-◌, ◌≤◌, ◌<◌, ◌≡◌, refl, ap, ◌∙◌, Bool, true, false, not, ◌&&◌, ◌||◌, ◌==◌,
  ◌%◌, ◌^◌, map, Option, none, some, arith, ltb, if◌then◌else◌, length, get_elem?, any, all,
  is_empty, All, WString, wstr_eq, Bool-cases, inl, inr, if_of_false, List, [], ◌∷◌,
}
use winindex.Storage.Pool.{EntryMeta, IndexPool, path_view, name_view, name_lower_view}
use winindex.Search.Simd.{simd_find_substring}
use winindex.Search.Simd.First.{first_occurrence, simd_find_substring-first_occurrence}
use winindex.Search.Tokens.{query_has_separators, tokenize_view}
use winindex.Search.Tokens.Laws.{all_query_tokens_present-sorted}
use winindex.Search.Workers.{SearchResult, Event, matches_in, Matcher}
use winindex.Search.Workers.Chunks.{Finished}
use winindex.Search.Workers.Results.{gather-matches_in, final_state}
use winindex.Search.Engine.{
  SearchOptions, Platform, lower_view, haystack, needle_of, does_token_match, judge, in_text,
  is_word_char, matches_whole_word, substring_result, substring_matcher, search_with, search,
}

module _ (sys : Platform) where
  abbrev char_before : WString → ℕ → Option ℕ
  char_before text zero = none
  char_before text (suc pos) = get_elem? text pos

  -- A letter or digit as the system sees it, or an underscore.
  abbrev is_in_word : Option ℕ → Bool
  is_in_word none = false
  is_in_word (some c) = sys.iswalnum c || (c == b'_')

  is_word_char-is_in_word : (o : Option ℕ) → is_word_char sys o ≡ is_in_word o
  is_word_char-is_in_word none = refl
  is_word_char-is_in_word (some c) = refl

  -- The text that counts, by whether case counts and the full path does.
  abbrev pub text_searched : Bool → Bool → IndexPool → EntryMeta → Option WString
  text_searched true true p m = path_view p m
  text_searched false true p m = Option.map (map sys.towlower) (path_view p m)
  text_searched true false p m = name_view p m
  text_searched false false p m = name_lower_view p m

  abbrev pub text_sought : Bool → WString → WString
  text_sought true query = query
  text_sought false query = map sys.towlower query

  abbrev match_at : ℕ → ℕ → ℕ → SearchResult
  match_at i pos len = record {
    entry_index = i % 2 ^ 32;
    match_start = pos % 2 ^ 32;
    match_len = len % 2 ^ 32;
  }

  -- No word character stands right before or right behind a part of the text.
  abbrev pub stands_alone : WString → ℕ → ℕ → Bool
  stands_alone text pos len =
      not (is_in_word (char_before text pos)) && not (is_in_word (get_elem? text (pos + len)))

  -- The query has a token, and each of its tokens is one of the text's.
  abbrev pub has_tokens : WString → WString → Bool
  has_tokens needle text =
      not (is_empty (tokenize_view needle))
      && all (λ t. any (wstr_eq t) (tokenize_view text)) (tokenize_view needle)

  -- What counts as a match: the first place of the query, which has to stand alone if whole words
  -- are asked for; and where the text does not contain the query, the query's tokens in any order,
  -- without regard to case.
  abbrev pub finds_at :
      SearchOptions → WString → WString → ℕ → WString → Option ℕ → Option SearchResult
  finds_at opts query sought i text (some pos) =
      let len = length sought in
      if not opts.whole_word
      then some (match_at i pos len)
      else if stands_alone text pos len
      then some (match_at i pos len)
      else none
  finds_at opts query sought i text none =
      if opts.case_sensitive
      then none
      else if query_has_separators query && has_tokens sought text
      then some (match_at i 0 0)
      else none

  abbrev pub finds_in : SearchOptions → WString → WString → ℕ → Option WString → Option SearchResult
  finds_in opts query sought i none = none
  finds_in opts query sought i (some text) =
      finds_at opts query sought i text (first_occurrence sought text)

  abbrev pub finds : SearchOptions → WString → IndexPool → Matcher
  finds opts query p i m =
      finds_in opts query (text_sought opts.case_sensitive query) i
        (text_searched opts.case_sensitive opts.match_path p m)

  haystack-text_searched :
      (opts : SearchOptions) (p : IndexPool) (m : EntryMeta)
      → haystack sys opts p m ≡ text_searched opts.case_sensitive opts.match_path p m
  unfolding haystack
  haystack-text_searched opts p m = go opts.case_sensitive opts.match_path
    where
      lowered_view : (o : Option WString) → lower_view sys o ≡ Option.map (map sys.towlower) o
      lowered_view none = refl
      lowered_view (some s) = refl

      go :
          (c q : Bool)
          → (if q
              then (if c then path_view p m else lower_view sys (path_view p m))
              else if c
              then name_view p m
              else name_lower_view p m)
            ≡ text_searched c q p m
      go true true = refl
      go false true = lowered_view (path_view p m)
      go true false = refl
      go false false = refl

  needle_of-text_sought :
      (opts : SearchOptions) (query : WString)
      → needle_of sys opts query ≡ text_sought opts.case_sensitive query
  unfolding needle_of
  needle_of-text_sought opts query = go opts.case_sensitive
    where
      go : (c : Bool) → (if c then query else map sys.towlower query) ≡ text_sought c query
      go true = refl
      go false = refl

  get_elem?-past : (text : WString) (n : ℕ) → length text ≤ n → get_elem? text n ≡ none
  get_elem?-past [] n h = refl
  get_elem?-past (c ∷ text) zero h = absurd (omega arith)
  get_elem?-past (c ∷ text) (suc n) h = get_elem?-past text n (omega arith)

  -- The test for the end of the text is one for a character.
  within :
      (text : WString) (n : ℕ)
      → (ltb n (length text) && is_word_char sys (get_elem? text n))
        ≡ is_word_char sys (get_elem? text n)
  within text n = elim (Bool-cases (ltb n (length text))) [
    | inl inside ↦ rw inside
    | inr outside ↦ rw (outside, get_elem?-past text n (ground arith))
  ]

  not_either : (a b : Bool) → (if a then false else if b then false else true) ≡ (not a && not b)
  not_either true b = refl
  not_either false true = refl
  not_either false false = refl

  matches_whole_word-stands_alone :
      (text : WString) (pos len : ℕ)
      → matches_whole_word sys text pos len ≡ stands_alone text pos len
  unfolding matches_whole_word
  matches_whole_word-stands_alone text zero len =
      rw (within text (0 + len)) (not_either false (is_word_char sys (get_elem? text (0 + len))))
  matches_whole_word-stands_alone text (suc pos) len =
      let before : ltb 0 (suc pos) ≡ true = ground arith in
      let same : suc pos - 1 ≡ pos = omega arith in
      rw (before, same, within text (suc pos + len))
        (not_either (is_word_char sys (get_elem? text pos))
          (is_word_char sys (get_elem? text (suc pos + len))))

  judge-finds_at :
      (opts : SearchOptions) (query : WString) (i : ℕ) (text : WString) (o : Option ℕ)
      → judge sys opts query i text o ≡ finds_at opts query (needle_of sys opts query) i text o
  unfolding judge does_token_match
  judge-finds_at opts query i text (some pos) =
      let len = length (needle_of sys opts query) in
      rw (matches_whole_word-stands_alone text pos len)
        (whole opts.whole_word (stands_alone text pos len) (some (substring_result sys i pos len)))
    where
      whole :
          (w a : Bool) (r : Option SearchResult)
          → (if w && not a then none else r) ≡ (if not w then r else if a then r else none)
      whole true true r = refl
      whole true false r = refl
      whole false a r = refl
  judge-finds_at opts query i text none =
      rw
        (all_query_tokens_present-sorted (tokenize_view (needle_of sys opts query))
          (tokenize_view text))
        (cased opts.case_sensitive (query_has_separators query)
          (has_tokens (needle_of sys opts query) text) (some (substring_result sys i 0 0)))
    where
      cased :
          (c q t : Bool) (r : Option SearchResult)
          → (if (not c && q) && t then r else none)
            ≡ (if c then none else if q && t then r else none)
      cased true q t r = refl
      cased false q t r = refl

  substring_matcher-finds :
      (opts : SearchOptions) (query : WString) (p : IndexPool) (i : ℕ) (m : EntryMeta)
      → substring_matcher sys opts query p i m ≡ finds opts query p i m
  unfolding substring_matcher
  substring_matcher-finds opts query p i m = in_either (haystack sys opts p m) ∙ (λ j.
      finds_in opts query (needle_of-text_sought opts query j) i
        (haystack-text_searched opts p m j))
    where
      in_either :
          (o : Option WString)
          → in_text sys o (λ text.
            judge sys opts query i text
              (simd_find_substring sys.avx2 text (needle_of sys opts query)))
            ≡ finds_in opts query (needle_of sys opts query) i o
      in_either none = refl
      in_either (some text) =
          judge-finds_at opts query i text _
          ∙ ap (finds_at opts query (needle_of sys opts query) i text)
              (simd_find_substring-first_occurrence sys.avx2 text (needle_of sys opts query))

  -- For a query of two characters or more, no regular expression, and any choice of case, whole
  -- words and full path, a search whose workers are all done, that is not cancelled and has fewer
  -- matches than `max_results` returns, in order, the matches of exactly the live entries whose
  -- text matches: the path or the name by the option for the full path, as it is and with the
  -- query as it is if case counts, and otherwise the path or the stored name and the query in
  -- lower case. A text matches if it contains the query with its first place standing alone if
  -- whole words are asked for, or does not contain it, case does not count, the query has
  -- separators and all its tokens are tokens of the text in whatever order.
  pub search-finds :
      (query : WString) (opts : SearchOptions) (hw max_results : ℕ) (p : IndexPool)
      (es : List Event)
      → 2 ≤ length query
      → opts.use_regex ≡ false
      → All Finished
          (final_state (substring_matcher sys opts query p) hw max_results p.metas es).workers
      → (final_state (substring_matcher sys opts query p) hw max_results p.metas es).cancelled
        ≡ false
      → length (matches_in (finds opts query p) 0 p.metas) < max_results
      → search sys query opts hw max_results p es ≡ matches_in (finds opts query p) 0 p.metas
  unfolding search search_with
  search-finds query opts hw max_results p es long text done calm few =
      let two : ltb (length query) 2 ≡ false = ground arith in
      let same =
        ap (λ (f : Matcher). matches_in f 0 p.metas)
          (fun_ext (λ i. fun_ext (substring_matcher-finds opts query p i))) in
      rw two (
        if_of_false (λ r. r ≡ matches_in (finds opts query p) 0 p.metas) opts.use_regex _ _ text
          (gather-matches_in (substring_matcher sys opts query p) hw max_results p.metas es done
              calm (omega (arith, ap length same))
            ∙ same))
