-- ===== src/Ui/Window/Latest.antt =====
-- Which search's results the list ends up with.
use mathlib.Core.Path.{subst}
use winindex.Prelude.{
  suc, ◌≡◌, ◌≤◌, ◌<◌, refl, true, false, none, some, List, [], ◌∷◌, ◌++◌, ltb, length,
  length-append, length-take, replicate, arith, WString,
}
use winindex.Search.Engine.{SearchOptions}
use winindex.Ui.Results.{DisplayEntry, Sorter, apply_current_sort}
use winindex.Ui.Window.{
  Window, query_of, post, on_search_changed, execute_search, trigger_search, on_timer,
  finish_search, on_search_results, results_arrive,
}
use winindex.Ui.Messages.{typed, timer_fires, search_ends, results_posted, handle, handle_all}

-- All the posted results are taken off the queue.
abbrev pub drain : Sorter → Window → Window
drain sort w = handle_all sort (replicate (length w.posted) results_posted) w

-- The list shows these results, in the order that is chosen, and nothing is under way.
pub record Shows (sort : Sorter) (results : List DisplayEntry) (w : Window) : Type 0 where
  pub shown : w.current_results ≡ apply_current_sort sort w.sort_column w.sort_descending results
  pub counted : w.item_count ≡ length w.current_results
  pub matched : w.total_matches ≡ length results
  pub idle_search : w.running ≡ none
  pub no_posted : w.posted ≡ []

-- The buffer does not change on which side of two characters a text is.
query-long : (text : WString) → 2 ≤ length text → ltb (length (query_of text)) 2 ≡ false
query-long text h =
    let n : 2 ≤ length (query_of text) = omega (arith, length-take 1023 text) in ground arith

query-short : (text : WString) → length text < 2 → ltb (length (query_of text)) 2 ≡ true
query-short text h =
    let n : length (query_of text) < 2 = omega (arith, length-take 1023 text) in ground arith

module _ (sort : Sorter) where
  drains :
      (older : List (List DisplayEntry)) (results : List DisplayEntry) (w : Window)
      → w.posted ≡ older ++ results ∷ []
      → w.running ≡ none
      → Shows sort results (handle_all sort (replicate (suc (length older)) results_posted) w)
  unfolding handle_all handle results_arrive on_search_results
  drains [] results w p q =
      rw p
        (record { shown = refl; counted = refl; matched = refl; idle_search = q; no_posted = refl })
  drains (r ∷ older) results w p q = rw p (drains older results _ refl q)

  ends-Shows :
      (results : List DisplayEntry) (q : WString × SearchOptions) (w : Window)
      → w.running ≡ some q
      → Shows sort results (drain sort (handle sort (search_ends results) w))
  unfolding handle finish_search
  ends-Shows results q w p =
      let ended = post results (some q) w in
      let n : suc (length w.posted) ≡ length ended.posted =
        omega (arith, length-append w.posted (results ∷ [])) in
      rw p (
        subst (λ k. Shows sort results (handle_all sort (replicate k results_posted) ended)) n
          (drains w.posted results ended refl refl))

  asks :
      (text : WString) (late : List DisplayEntry) (w : Window)
      → 2 ≤ length text
      → (handle sort (timer_fires late) (handle sort (typed text) w)).running
        ≡ some (query_of text, w.options)
  unfolding handle on_search_changed on_timer trigger_search execute_search
  asks text late w long =
      let is_long : ltb (length (query_of text)) 2 ≡ false = query-long text long in
      rw (is_long, is_long) refl

  -- From every state of the window, once a text of two characters or more is typed and the timer
  -- fires, the search thread is at work on that text, cut to 1023 characters, with the options;
  -- and once it ends and the posted messages are handled, the list shows its results in the
  -- chosen order with their counts, whatever earlier searches have posted, and nothing is under
  -- way.
  pub search-Shows :
      (text : WString) (late results : List DisplayEntry) (w : Window)
      → 2 ≤ length text
      → let asked = handle sort (timer_fires late) (handle sort (typed text) w) in
        (asked.running ≡ some (query_of text, w.options))
        × Shows sort results (drain sort (handle sort (search_ends results) asked))
  search-Shows text late results w long =
      let asked = handle sort (timer_fires late) (handle sort (typed text) w) in
      let q = asks text late w long in (q, ends-Shows results (query_of text, w.options) asked q)

  clears :
      (text : WString) (q : WString × SearchOptions) (w : Window)
      → length text < 2
      → w.running ≡ some q
      → ((handle sort (typed text) w).current_results ≡ [])
        × ((handle sort (typed text) w).running ≡ some q)
  unfolding handle on_search_changed
  clears text q w short p =
      let is_short : ltb (length (query_of text)) 2 ≡ true = query-short text short in
      rw is_short (refl, p)

  -- If a search is at work while the text is shortened to fewer than two characters, the results
  -- are cleared but the search stays at work, and once it ends and the posted messages are
  -- handled the list shows its results.
  pub short_query-Shows :
      (text : WString) (q : WString × SearchOptions) (results : List DisplayEntry) (w : Window)
      → length text < 2
      → w.running ≡ some q
      → let cleared = handle sort (typed text) w in
        (cleared.current_results ≡ [])
        × (cleared.running ≡ some q)
        × Shows sort results (drain sort (handle sort (search_ends results) cleared))
  short_query-Shows text q results w short p =
      let cleared = handle sort (typed text) w in
      let (empty, on) = clears text q w short p in (empty, on, ends-Shows results q cleared on)
