-- ===== src/Ui/Results/Found.antt =====
-- What the list is given by a plain search.
use winindex.Prelude.{ℕ, ◌≡◌, ◌≤◌, ◌<◌, ◌^◌, ◌∙◌, ap, false, some, List, length, All, WString}
use winindex.Storage.Pool.{IndexPool}
use winindex.Storage.Pool.Bounds.{IsWellFormed}
use winindex.Search.Tokens.{query_has_separators}
use winindex.Search.Workers.{SearchResult, Event, matches_in}
use winindex.Search.Workers.Chunks.{Finished}
use winindex.Search.Workers.Results.{final_state}
use winindex.Search.Engine.{Platform, substring_matcher, search}
use winindex.Search.Engine.Plain.{plain, occurs_in_name, occurs_in_name-index, search-plain}
use winindex.Ui.Results.{display_results}
use winindex.Ui.Results.Display.{shown_from, display_results-shown}

module _ (sys : Platform) (query : WString) (p : IndexPool)
    (one_word : query_has_separators query ≡ false) where
  -- For a query of two characters or more without separators, and no option set, if the workers
  -- of the search are all done, it is not cancelled and has fewer matches than `max_results`, and
  -- on a well-formed pool of fewer than 2^32 entries whose paths fit 16 bits, the list gets, in
  -- order, exactly the live entries whose lowercased name contains the lowercased query, each
  -- with its path, the name at the end of it, its size, time and attributes, and the place of the
  -- match.
  pub display_results-search :
      (hw max_results : ℕ) (es : List Event)
      → 2 ≤ length query
      → All Finished
          (final_state (substring_matcher sys plain query p) hw max_results p.metas es).workers
      → (final_state (substring_matcher sys plain query p) hw max_results p.metas es).cancelled
        ≡ false
      → length (matches_in (occurs_in_name sys query p) 0 p.metas) < max_results
      → IsWellFormed p
      → All (λ m. m.path_len < 2 ^ 16) p.metas
      → length p.metas < 2 ^ 32
      → display_results p (search sys query plain hw max_results p es)
        ≡ some (shown_from (occurs_in_name sys query p) p 0 p.metas)
  display_results-search hw max_results es long done calm few w short small =
      ap (λ (rs : List SearchResult). display_results p rs)
        (search-plain sys query p one_word hw max_results es long done calm few)
      ∙ display_results-shown p (occurs_in_name sys query p) (occurs_in_name-index sys query p) w
          short small
