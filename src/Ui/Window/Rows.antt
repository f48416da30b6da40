-- ===== src/Ui/Window/Rows.antt =====
-- What every message keeps: the rows of the list, their order and the arrows of the columns.
use winindex.Prelude.{
  ℕ, zero, suc, ◌≡◌, refl, ◌≤◌, Bool, true, false, Option, none, some, List, [], ◌∷◌, map, ltb,
  length, arith, Bool-cases, ◌==◌, inl, inr, WString,
}
use winindex.Search.Engine.{SearchOptions}
use winindex.Indexing.Indexer.{IndexerStatus}
use winindex.Ui.Devices.{device_texts}
use winindex.Ui.Results.{DisplayEntry, Sorter}
use winindex.Ui.Results.Order.{Sorts, apply_current_sort-IsSortedBy}
use winindex.Ui.Results.Placed.{ArePlaced, IsSortedBy-ArePlaced}
use winindex.Ui.Window.{
  Window, reported, on_device_change, on_arrow_key, query_of, post, on_search_changed,
  execute_search, trigger_search, on_timer, finish_search, on_search_results, arrive,
  results_arrive, on_indexer_status, on_column_click, arrow, Arrow, sort_up, sort_down,
  descending_after, toggle_option, update_menu_checkmarks,
}
use winindex.Ui.Messages.{
  Message, typed, timer_fires, search_ends, results_posted, status_posted, column_clicked,
  option_toggled, device_changed, arrow_pressed, rows_selected, handle, handle_all,
}

-- Down is from the larger to the smaller.
abbrev pub points : Bool → Option Arrow
points true = some sort_down
points false = some sort_up

-- The four columns with the arrow of the one that is chosen.
abbrev pub arrows : Option ℕ → Bool → List (Option Arrow)
arrows (some zero) desc = points desc ∷ (none ∷ (none ∷ (none ∷ [])))
arrows (some (suc zero)) desc = none ∷ (points desc ∷ (none ∷ (none ∷ [])))
arrows (some (suc (suc zero))) desc = none ∷ (none ∷ (points desc ∷ (none ∷ [])))
arrows (some (suc (suc (suc zero)))) desc = none ∷ (none ∷ (none ∷ (points desc ∷ [])))
arrows column desc = none ∷ (none ∷ (none ∷ (none ∷ [])))

arrow-arrows :
    (col : ℕ) (desc : Bool)
    → map (arrow (some col) desc) (0 ∷ (1 ∷ (2 ∷ (3 ∷ [])))) ≡ arrows (some col) desc
arrow-arrows zero true = refl
arrow-arrows zero false = refl
arrow-arrows (suc zero) true = refl
arrow-arrows (suc zero) false = refl
arrow-arrows (suc (suc zero)) true = refl
arrow-arrows (suc (suc zero)) false = refl
arrow-arrows (suc (suc (suc zero))) true = refl
arrow-arrows (suc (suc (suc zero))) false = refl
arrow-arrows (suc (suc (suc (suc col)))) desc =
    let n = suc (suc (suc (suc col))) in
    let not_0 : (n == 0) ≡ false = ground arith in
    let not_1 : (n == 1) ≡ false = ground arith in
    let not_2 : (n == 2) ≡ false = ground arith in
    let not_3 : (n == 3) ≡ false = ground arith in rw (not_0, not_1, not_2, not_3) refl

pub record IsConsistent (w : Window) : Type 0 where
  pub rows : w.item_count ≤ length w.current_results
  pub order : ArePlaced w.sort_column w.sort_descending w.current_results
  pub header_is : w.header ≡ arrows w.sort_column w.sort_descending

ArePlaced-nil : (column : Option ℕ) (desc : Bool) → ArePlaced column desc []
ArePlaced-nil none desc = tt
ArePlaced-nil (some col) desc = tt

module _ (sort : Sorter) (sorts : Sorts sort) where
  on_search_changed-IsConsistent :
      (w : Window) → IsConsistent w → IsConsistent (on_search_changed w)
  unfolding on_search_changed
  on_search_changed-IsConsistent w v = elim (Bool-cases (ltb (length (query_of w.text)) 2)) [
    | inl short ↦ rw short (record {
      rows = omega arith;
      order = ArePlaced-nil w.sort_column w.sort_descending;
      header_is = v.header_is;
    })
    | inr long ↦ rw long (record { rows = v.rows; order = v.order; header_is = v.header_is })
  ]

  post-IsConsistent :
      (results : List DisplayEntry) (o : Option (WString × SearchOptions)) (w : Window)
      → IsConsistent w
      → IsConsistent (post results o w)
  post-IsConsistent results none w v = v
  post-IsConsistent results (some q) w v = record {
    rows = v.rows;
    order = v.order;
    header_is = v.header_is;
  }

  trigger_search-IsConsistent :
      (late : List DisplayEntry) (w : Window)
      → IsConsistent w
      → IsConsistent (trigger_search late w)
  unfolding trigger_search execute_search
  trigger_search-IsConsistent late w v = elim (Bool-cases (ltb (length (query_of w.text)) 2)) [
    | inl short ↦ rw short v
    | inr long ↦
        let v' = post-IsConsistent late w.running w v in
        rw long (record { rows = v'.rows; order = v'.order; header_is = v'.header_is })
  ]

  arrive-IsConsistent :
      (posted : List (List DisplayEntry)) (w : Window)
      → IsConsistent w
      → IsConsistent (arrive sort posted w)
  unfolding on_search_results
  arrive-IsConsistent [] w v = v
  arrive-IsConsistent (results ∷ posted) w v = record {
    rows = omega arith;
    order =
        IsSortedBy-ArePlaced w.sort_column w.sort_descending _
          (apply_current_sort-IsSortedBy sort w.sort_column w.sort_descending results sorts).1;
    header_is = v.header_is;
  }

  on_indexer_status-IsConsistent :
      (status : IndexerStatus) (w : Window)
      → IsConsistent w
      → IsConsistent (on_indexer_status status w)
  unfolding on_indexer_status
  on_indexer_status-IsConsistent status w v = record {
    rows = ground (arith, v.rows);
    order = v.order;
    header_is = v.header_is;
  }

  reported-IsConsistent :
      (texts : Option (WString × WString)) (w : Window)
      → IsConsistent w
      → IsConsistent (reported texts w)
  reported-IsConsistent none w v = v
  reported-IsConsistent (some (line, text)) w v = record {
    rows = v.rows;
    order = v.order;
    header_is = v.header_is;
  }

  pub handle-IsConsistent :
      (m : Message) (w : Window) → IsConsistent w → IsConsistent (handle sort m w)
  unfolding handle on_timer finish_search results_arrive on_column_click toggle_option
      update_menu_checkmarks on_device_change on_arrow_key
  handle-IsConsistent (typed text) w v =
      on_search_changed-IsConsistent (record w { text = text })
        (record { rows = v.rows; order = v.order; header_is = v.header_is })
  handle-IsConsistent (timer_fires late) w v =
      trigger_search-IsConsistent late (record w { has_timer = false })
        (record { rows = v.rows; order = v.order; header_is = v.header_is })
  handle-IsConsistent (search_ends results) w v = post-IsConsistent results w.running w v
  handle-IsConsistent results_posted w v = arrive-IsConsistent w.posted w v
  handle-IsConsistent (status_posted status) w v = on_indexer_status-IsConsistent status w v
  handle-IsConsistent (column_clicked col) w v = record {
    rows = omega arith;
    order =
        IsSortedBy-ArePlaced (some col) (descending_after col w) _
          (apply_current_sort-IsSortedBy sort (some col) _ w.current_results sorts).1;
    header_is = arrow-arrows col (descending_after col w);
  }
  handle-IsConsistent (option_toggled o late) w v =
      trigger_search-IsConsistent late _
        (record { rows = v.rows; order = v.order; header_is = v.header_is })
  handle-IsConsistent (device_changed event mask) w v =
      reported-IsConsistent (device_texts event mask) w v
  handle-IsConsistent arrow_pressed w v = elim (Bool-cases (w.item_count == 0)) [
    | inl no_rows ↦ rw (no_rows, on_arrow_key) v
    | inr some_rows ↦
        rw (some_rows, on_arrow_key)
          (record { rows = v.rows; order = v.order; header_is = v.header_is })
  ]
  handle-IsConsistent (rows_selected rows) w v = record {
    rows = v.rows;
    order = v.order;
    header_is = v.header_is;
  }

  -- If std::sort keeps its promises for strict weak orders, every sequence of messages keeps that
  -- the list has no more rows than there are results, that the results are in the order of the
  -- chosen column and direction, and that the arrows in the header show them.
  handle_all-IsConsistent :
      (ms : List Message) (w : Window) → IsConsistent w → IsConsistent (handle_all sort ms w)
  unfolding handle_all
  handle_all-IsConsistent [] w v = v
  handle_all-IsConsistent (m ∷ ms) w v =
      handle_all-IsConsistent ms (handle sort m w) (handle-IsConsistent m w v)
