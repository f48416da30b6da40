-- ===== src/Tests/Window.antt =====
-- The window and the dialogs on concrete inputs, with an insertion sort in place of std::sort.
use winindex.Prelude.{
  length, ltb, ℕ, ◌≡◌, refl, true, false, none, some, List, [], ◌∷◌, ◌++◌, map, All, arith, WString,
  wstr_eq, codes,
}
use winindex.Config.Settings.{Settings}
use winindex.Config.Format.{to_decimal, digits_onto}
use winindex.Config.Format.Laws.{decimal_value, digits_onto-value}
use winindex.Search.Engine.{search}
use winindex.Search.Engine.Plain.{plain, occurs_in_name}
use winindex.Indexing.Indexer.{IndexerStatus, scanning}
use winindex.Ui.Results.{DisplayEntry, display_results}
use winindex.Ui.Results.Display.{shown_from}
use winindex.Ui.Results.Found.{display_results-search}
use winindex.Ui.Window.{Window, whole, on_search_bar, query_of}
use winindex.Ui.Messages.{
  Message, typed, timer_fires, search_ends, results_posted, status_posted, column_clicked, handle,
}
use winindex.Ui.Lifetime.{wm_other, wm_set_focus, wm_destroy, w_win_main, Runs, w_win_main-Runs}
use winindex.Ui.Dialogs.Procs.{
  DialogEvent, command, interval_typed, show_settings, settings_proc, on_edit, on_shared_command,
}
use winindex.Ui.Dialogs.Results.{Left, show_settings-Left}
use winindex.Ui.Window.Latest.{Shows, drain, search-Shows, short_query-Shows}
use winindex.Ui.Rows.{selected, path_list}
use winindex.Ui.Rows.Paths.{read_paths, IsText, path_list-read_paths}
use winindex.Ui.Commands.{Surroundings, searches, keeps, on_settings, on_command}
use winindex.Ui.Commands.Options.{turned, marks_of, on_command-checks}
use winindex.Ui.Commands.Follows.{Asks, on_settings-Asks}
use winindex.Ui.Dialogs.{
  init_settings, ok_settings, entered_hours, set_manual_only, on_add_location, on_remove_path,
  on_add_exclusion, on_remove_exclusion,
}
use winindex.Ui.Dialogs.Unchanged.{ReadsDecimals, ok_settings-init_settings}
use winindex.Storage.Store.Spec.{removes, ends}
use winindex.Ui.Drag.Source.{DragCall, refers_to_object, releases_object, refers_to_source}
use winindex.Ui.SearchThread
use winindex.Ui.SearchThread.{SearchEvent, executes, displays, calls}
use winindex.Tests.Search.{platform, draft, no_separators, alone, draft_done, draft_few}
use winindex.Tests.Config.{saved}
use winindex.Tests.Sorting.{sorter, sorter-Sorts}

abbrev shown : WString → ℕ → DisplayEntry
shown name size = record {
  name = name;
  path = codes "C:\\" ++ name;
  size = size;
  last_modified = 7;
  attributes = 32;
  match_start = 0;
  match_len = 2;
}

abbrev three : List DisplayEntry
three = shown (codes "ab") 5 ∷ (shown (codes "abc") 9 ∷ (shown (codes "aab") 1 ∷ []))

-- The window as it opens.
abbrev opened : Window
opened = record {
  text = [];
  is_enabled = true;
  focus = on_search_bar;
  has_timer = false;
  current_results = [];
  total_matches = 0;
  item_count = 0;
  selection = [];
  sort_column = none;
  sort_descending = false;
  header = none ∷ (none ∷ (none ∷ (none ∷ [])));
  status_text = codes "Ready.";
  logged = [];
  options = plain;
  saved_options = plain;
  check_marks = [];
  running = none;
  posted = [];
}

abbrev scan_status : IndexerStatus
scan_status = record {
  state = scanning;
  message = codes "Scanning...";
  files_indexed = 0;
  skipped_paths = 0;
  locations = [];
  index_age_seconds = 0;
}

abbrev session : List Message
session =
    typed (codes "ab")
    ∷ (timer_fires []
        ∷ (search_ends three
            ∷ (results_posted ∷ (column_clicked 2 ∷ (status_posted scan_status ∷ [])))))

w_win_main-Runs_example : Runs true (
    w_win_main true true true sorter plain
      (map wm_other session ++ (wm_destroy ∷ (wm_set_focus ∷ []))))
w_win_main-Runs_example =
    w_win_main-Runs sorter sorter-Sorts true true true plain
      (map wm_other session ++ (wm_destroy ∷ (wm_set_focus ∷ [])))

search-Shows_example :
    let asked = handle sorter (timer_fires []) (handle sorter (typed (codes "ab")) opened) in
    (asked.running ≡ some (query_of (codes "ab"), plain))
    × Shows sorter three (drain sorter (handle sorter (search_ends three) asked))
search-Shows_example = search-Shows sorter (codes "ab") [] three opened (omega arith)

-- A search is at work.
abbrev searching : Window
searching = record opened { text = codes "ab"; running = some (codes "ab", plain) }

short_query-Shows_example :
    let cleared = handle sorter (typed (codes "a")) searching in
    (cleared.current_results ≡ [])
    × (cleared.running ≡ some (codes "ab", plain))
    × Shows sorter three (drain sorter (handle sorter (search_ends three) cleared))
short_query-Shows_example =
    short_query-Shows sorter (codes "a") (codes "ab", plain) three searching (omega arith) refl

display_results-search_example :
    display_results draft (search platform (codes "AFT") plain 1 9 draft alone)
    ≡ some (shown_from (occurs_in_name platform (codes "AFT") draft) draft 0 draft.metas)
display_results-search_example =
    display_results-search platform (codes "AFT") draft no_separators 1 9 alone (omega arith)
      draft_done.0 draft_done.1 draft_few
      (
        record { path_inside = omega arith; lower_inside = omega arith; name_inside = omega arith },
        tt,
      )
      (omega arith) (omega arith)

three_texts : All IsText (selected three (0 ∷ (2 ∷ [])))
unfolding selected
three_texts = (
  (λ e. cc, (refl, (refl, (refl, (refl, (refl, tt)))))),
  ((λ e. cc, (refl, (refl, (refl, (refl, (refl, (refl, tt))))))), tt),
)

path_list-read_paths_example :
    (read_paths (path_list three (0 ∷ (2 ∷ [])))
      ≡ map (λ (e : DisplayEntry). e.path) (selected three (0 ∷ (2 ∷ []))))
    × (selected three (0 ∷ (2 ∷ [])) ≡ [] → path_list three (0 ∷ (2 ∷ [])) ≡ none)
path_list-read_paths_example = path_list-read_paths three (0 ∷ (2 ∷ [])) three_texts

abbrev old_paths : List WString
old_paths = codes "C:\\" ∷ (codes "D:\\" ∷ [])

abbrev new_paths : List WString
new_paths = codes "C:\\" ∷ []

on_settings-Asks_example :
    Asks old_paths new_paths (on_settings old_paths (some new_paths))
    × (on_settings old_paths none ≡ keeps)
on_settings-Asks_example = on_settings-Asks old_paths new_paths

-- The value of the digits reads decimals.
decimal_value-reads : ReadsDecimals (decimal_value 0)
unfolding to_decimal
decimal_value-reads n h = digits_onto-value 20 n [] (omega arith) (omega arith)

ok_settings-init_settings_example :
    ok_settings (decimal_value 0) (init_settings saved) saved ≡ saved
ok_settings-init_settings_example =
    ok_settings-init_settings (decimal_value 0) decimal_value-reads saved (omega arith)

-- A folder is added, the interval typed, the first row removed, and OK pressed.
abbrev changed : List DialogEvent
changed =
    command 3011 false (some (codes "D:\\Work")) none
    ∷ (interval_typed (codes "12")
        ∷ (command 3013 false none (some 0) ∷ (command 1 false none none ∷ [])))

abbrev after_changed : Settings
after_changed = record saved {
  selected_drives = codes "D:\\Work" ∷ [];
  reindex_interval_hours = 288;
}

show_settings-run :
    show_settings wstr_eq (decimal_value 0) changed (init_settings saved) saved
    ≡ some (true, after_changed)
unfolding show_settings settings_proc on_edit on_shared_command set_manual_only on_add_location
    on_remove_path on_add_exclusion on_remove_exclusion ok_settings entered_hours init_settings
    to_decimal digits_onto
show_settings-run = refl

show_settings-Left_example : Left wstr_eq saved (true, after_changed)
show_settings-Left_example =
    show_settings-Left wstr_eq (decimal_value 0) changed saved (true, after_changed) (tt, tt)
      show_settings-run

abbrev around : Surroundings
around = record {
  late = [];
  data_dir = codes "C:";
  old_paths = [];
  new_paths = none;
  exists = λ path. true;
  wants_rebuild = false;
}

on_command-checks_example :
    (w' : Window) × (on_command around 203 searching ≡ searches w')
    × (w'.check_marks ≡ map (turned 203) (marks_of searching.options))
    × (marks_of w'.options ≡ w'.check_marks)
    × (w'.saved_options ≡ w'.options)
    × (ltb (length (query_of searching.text)) 2 ≡ false
        → w'.running ≡ some (query_of searching.text, w'.options))
on_command-checks_example = on_command-checks around whole searching

-- The index is changed while a search is at work: the changes wait.
abbrev shared_session : List SearchEvent
shared_session =
    executes (codes "ab") plain
    ∷ (calls (removes (codes "C:\\a"))
        ∷ (SearchThread.searches [] ∷ (calls ends ∷ (displays ∷ []))))

-- The target takes a reference of the object and gives it back, and keeps one of the source.
abbrev dragged : List DragCall
dragged = refers_to_object ∷ (refers_to_source ∷ (releases_object ∷ []))
