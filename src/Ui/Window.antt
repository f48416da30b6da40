-- ===== src/Ui/Window.antt =====
-- src/ui/MainWindow.h, MainWindow.cpp: the state behind the search bar, the list and the status bar,
-- and the messages that change it. A search thread's results, those of a search that is cancelled by
-- the next one included, are arguments of the messages.
pub mod Rows
pub mod Latest
use winindex.Prelude.{
  ℕ, zero, suc, ◌-◌, ◌^◌, Bool, true, false, not, ◌&&◌, ◌||◌, Option, none, some, List, [], ◌∷◌,
  ◌++◌, ◌==◌, map, ltb, if◌then◌else◌, length, take, is_empty, WString, codes,
}
use winindex.Config.Format.{format_file_count, format_age, format_location_list, to_decimal}
use winindex.Config.Logger.{LogLevel, info, error}
use winindex.Search.Engine.{SearchOptions}
use winindex.Indexing.Indexer.{
  IndexerState, idle, scanning, loading_index, watching_for_changes, error_state, IndexerStatus,
}
use winindex.Ui.Ids.{
  id_search_regex, id_search_casesensitive, id_search_wholeword, id_search_matchpath,
  id_search_ignorediacs,
}
use winindex.Ui.Devices.{DeviceEvent, device_texts}
use winindex.Ui.Results.{DisplayEntry, Sorter, apply_current_sort}

pub data Focus : Type 0 where
  on_search_bar on_list elsewhere : Focus

-- HDF_SORTUP and HDF_SORTDOWN.
pub data Arrow : Type 0 where
  sort_up sort_down : Arrow

-- `text` is the text of the search bar, `running` what the search thread is at work on, and `posted`
-- the WM_SEARCH_RESULTS messages under way; `header` has the arrow of each column, and `check_marks`
-- the marks of the search menu by the ids of its items.
pub record Window : Type 0 where
  pub text : WString
  pub is_enabled : Bool
  pub focus : Focus
  pub has_timer : Bool
  pub current_results : List DisplayEntry
  pub total_matches : ℕ
  pub item_count : ℕ
  pub selection : List ℕ
  pub sort_column : Option ℕ
  pub sort_descending : Bool
  pub header : List (Option Arrow)
  pub status_text : WString
  pub logged : List (LogLevel × WString)
  pub options : SearchOptions
  pub saved_options : SearchOptions
  pub check_marks : List (ℕ × Bool)
  pub running : Option (WString × SearchOptions)
  pub posted : List (List DisplayEntry)

-- GetWindowTextW into a buffer of 1024 characters.
abbrev pub query_of : WString → WString
query_of text = take 1023 text

unfoldable pub on_search_changed : Window → Window
on_search_changed w =
    let query = query_of w.text in
    if ltb (length query) 2
    then record w {
      has_timer = false;
      current_results = [];
      item_count = 0;
      status_text =
          if is_empty query
          then codes "Enter a search term to begin."
          else codes "Type at least 2 characters to search...";
    }
    else record w { has_timer = true }

-- A search thread that ends posts its results.
abbrev pub post : List DisplayEntry → Option (WString × SearchOptions) → Window → Window
post results none w = w
post results (some q) w = record w { running = none; posted = w.posted ++ results ∷ [] }

unfoldable pub execute_search : List DisplayEntry → WString → Window → Window
execute_search late query w = record (post late w.running w) { running = some (query, w.options) }

unfoldable pub trigger_search : List DisplayEntry → Window → Window
unfolding execute_search
trigger_search late w =
    let query = query_of w.text in if ltb (length query) 2 then w else execute_search late query w

-- WM_TIMER
unfoldable pub on_timer : List DisplayEntry → Window → Window
unfolding trigger_search
on_timer late w = trigger_search late (record w { has_timer = false })

unfoldable pub finish_search : List DisplayEntry → Window → Window
finish_search results w = post results w.running w

-- The status of `OnSearchResults`, by the number of results.
unfoldable pub result_text : ℕ → WString
unfolding to_decimal
result_text n =
    if n == 0
    then codes "No results found."
    else to_decimal n
      ++ (codes " result(s)"
          ++ (if n == 10000
              then codes " - showing first 10,000. Refine your search to narrow results."
              else []))

-- ListView_SetItemCount of an int is the number itself, as there are at most 10000 results.
unfoldable pub on_search_results : Sorter → List DisplayEntry → Window → Window
unfolding result_text
on_search_results sort results w =
    let sorted = apply_current_sort sort w.sort_column w.sort_descending results in
    record w {
      total_matches = length results;
      current_results = sorted;
      item_count = length sorted;
      status_text = result_text (length sorted);
    }

abbrev pub arrive : Sorter → List (List DisplayEntry) → Window → Window
arrive sort [] w = w
arrive sort (results ∷ posted) w = on_search_results sort results (record w { posted = posted })

-- WM_SEARCH_RESULTS
unfoldable pub results_arrive : Sorter → Window → Window
unfolding on_search_results
results_arrive sort w = arrive sort w.posted w

abbrev pub has_index : IndexerState → Bool
has_index watching_for_changes = true
has_index idle = true
has_index _ = false

abbrev pub is_watching : IndexerState → Bool
is_watching watching_for_changes = true
is_watching _ = false

abbrev pub level_of_state : IndexerState → LogLevel
level_of_state error_state = error
level_of_state _ = info

-- The focus after `SetFocus`, and the text of the status bar.
abbrev pub focus_after : Bool → Focus → Focus
focus_after true on_list = on_list
focus_after true on_search_bar = on_search_bar
focus_after true elsewhere = on_search_bar
focus_after false f = f

unfoldable pub status_of : IndexerStatus → WString
status_of status =
    if is_watching status.state && not (is_empty status.locations)
    then format_file_count status.files_indexed
      ++ (codes " files | "
          ++ (format_location_list status.locations
              ++ (if status.index_age_seconds == 2 ^ 64 - 1
                  then []
                  else codes " | " ++ format_age status.index_age_seconds)))
    else status.message

unfoldable pub on_indexer_status : IndexerStatus → Window → Window
unfolding status_of
on_indexer_status status w = record w {
  logged =
      if is_empty status.message
      then w.logged
      else w.logged ++ (level_of_state status.state, status.message) ∷ [];
  is_enabled = has_index status.state;
  focus = focus_after (has_index status.state) w.focus;
  item_count = if has_index status.state then w.item_count else 0;
  status_text = status_of status;
}

abbrev pub is_column : ℕ → Option ℕ → Bool
is_column col none = false
is_column col (some c) = c == col

abbrev pub arrow : Option ℕ → Bool → ℕ → Option Arrow
arrow column desc i =
    if is_column i column then some (if desc then sort_down else sort_up) else none

-- The column clicked on turns its direction if it is the chosen one.
abbrev pub descending_after : ℕ → Window → Bool
descending_after col w = if is_column col w.sort_column then not w.sort_descending else col == 2

unfoldable pub on_column_click : Sorter → ℕ → Window → Window
on_column_click sort col w =
    let desc = descending_after col w in
    let sorted = apply_current_sort sort (some col) desc w.current_results in
    record w {
      sort_column = some col;
      sort_descending = desc;
      current_results = sorted;
      header = map (arrow (some col) desc) (0 ∷ (1 ∷ (2 ∷ (3 ∷ []))));
      item_count = length sorted;
    }

abbrev pub reported : Option (WString × WString) → Window → Window
reported none w = w
reported (some (line, text)) w = record w {
  logged = w.logged ++ (info, line) ∷ [];
  status_text = text;
}

unfoldable pub on_device_change : DeviceEvent → Option ℕ → Window → Window
unfolding device_texts
on_device_change event mask w = reported (device_texts event mask) w

-- The keys up and down in the search bar: the list gets the focus, and its first row is selected
-- if none is.
unfoldable pub on_arrow_key : Window → Window
on_arrow_key w = if w.item_count == 0 then w else record w {
  focus = on_list;
  selection = if is_empty w.selection then 0 ∷ [] else w.selection;
}

-- The options of the search menu.
pub data SearchOption : Type 0 where
  regex case whole match diacritics : SearchOption

abbrev pub toggled : SearchOption → SearchOptions → SearchOptions
toggled regex o = record o { use_regex = not o.use_regex }
toggled case o = record o { case_sensitive = not o.case_sensitive }
toggled whole o = record o { whole_word = not o.whole_word }
toggled match o = record o { match_path = not o.match_path }
toggled diacritics o = record o { ignore_diacritics = not o.ignore_diacritics }

-- The check marks of the search menu, by the ids of its items.
unfoldable pub menu_checkmarks : SearchOptions → List (ℕ × Bool)
menu_checkmarks opts =
    (id_search_regex, opts.use_regex)
    ∷ ((id_search_casesensitive, opts.case_sensitive)
        ∷ ((id_search_wholeword, opts.whole_word)
            ∷ ((id_search_matchpath, opts.match_path)
                ∷ ((id_search_ignorediacs, opts.ignore_diacritics) ∷ []))))

-- UpdateMenuCheckmarks
unfoldable pub update_menu_checkmarks : Window → Window
unfolding menu_checkmarks
update_menu_checkmarks w = record w { check_marks = menu_checkmarks w.options }

-- `toggleOpt`: set, saved, marked in the menu, and searched for again.
unfoldable pub toggle_option : List DisplayEntry → SearchOption → Window → Window
unfolding trigger_search update_menu_checkmarks
toggle_option late o w =
    let opts = toggled o w.options in
    trigger_search late (update_menu_checkmarks (record w { options = opts; saved_options = opts }))
