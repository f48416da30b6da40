-- ===== src/Ui/Commands.antt =====
-- src/ui/MainWindow.cpp: the commands of the menus, and what they ask of the indexer once the settings
-- dialog is closed.
pub mod Follows
pub mod Options
use winindex.Prelude.{
  ℕ, zero, suc, ◌+◌, Bool, true, false, not, ◌&&◌, Option, none, some, List, [], ◌∷◌, ◌++◌, ◌==◌,
  any, filter, if◌then◌else◌, is_empty, WString, codes, wstr_eq,
}
use winindex.Search.Engine.{SearchOptions}
use winindex.Ui.Ids.{
  id_search_regex, id_search_casesensitive, id_search_wholeword, id_search_matchpath,
  id_search_ignorediacs, id_index_rebuild, id_index_settings, id_help_openlog, id_help_about,
  id_ctx_open, id_ctx_opendir, id_ctx_copypath, id_ctx_copyname,
}
use winindex.Ui.Results.{DisplayEntry}
use winindex.Ui.Window.{Window, SearchOption, regex, case, whole, match, diacritics, toggle_option}
use winindex.Ui.Rows.{
  Effect, copies, or_nothing, open_selected_file, open_containing_folder, copy_selected_paths,
}

-- StartIndexing(true), IndexPaths and RemovePaths.
pub data IndexerCall : Type 0 where
  rebuilds keeps : IndexerCall
  indexes removes : List WString → IndexerCall

-- `std::find(paths.begin(), paths.end(), q) != paths.end()`
abbrev pub contains : WString → List WString → Bool
contains q paths = any (λ w. wstr_eq w q) paths

unfoldable pub added_paths : List WString → List WString → List WString
added_paths old_paths new_paths = filter (λ q. not (contains q old_paths)) new_paths

unfoldable pub removed_paths : List WString → List WString → List WString
removed_paths old_paths new_paths = filter (λ q. not (contains q new_paths)) old_paths

abbrev pub call_for : List WString → List WString → IndexerCall
call_for [] [] = keeps
call_for (a ∷ added) [] = indexes (a ∷ added)
call_for [] (r ∷ removed) = removes (r ∷ removed)
call_for (a ∷ added) (r ∷ removed) = rebuilds

-- ID_INDEX_SETTINGS, with the paths before the dialog and, if it was confirmed, after it.
unfoldable pub on_settings : List WString → Option (List WString) → IndexerCall
unfolding added_paths removed_paths
on_settings old_paths none = keeps
on_settings old_paths (some new_paths) =
    call_for (added_paths old_paths new_paths) (removed_paths old_paths new_paths)

-- What a command comes to: a search with an option toggled, a call of the indexer, a use of the
-- selected rows, the log file opened, the box about the program, or nothing.
pub data Response : Type 0 where
  searches : Window → Response
  calls : IndexerCall → Response
  uses : Effect → Response
  opens_log : WString → Response
  shows_about ignored : Response

-- What the handler of a command meets: the results that a search cancelled by it posts, the data
-- directory, the paths before and after the settings dialog, and the answers of `open_selected_file`.
pub record Surroundings : Type 0 where
  pub late : List DisplayEntry
  pub data_dir : WString
  pub old_paths : List WString
  pub new_paths : Option (List WString)
  pub exists : WString → Bool
  pub wants_rebuild : Bool

-- `OnCommand`, by the ids of src/ui/resource.h.
unfoldable pub on_command : Surroundings → ℕ → Window → Response
unfolding on_settings
on_command at id w =
    if id == id_search_regex
    then searches (toggle_option at.late regex w)
    else if id == id_search_casesensitive
    then searches (toggle_option at.late case w)
    else if id == id_search_wholeword
    then searches (toggle_option at.late whole w)
    else if id == id_search_matchpath
    then searches (toggle_option at.late match w)
    else if id == id_search_ignorediacs
    then searches (toggle_option at.late diacritics w)
    else if id == id_index_rebuild
    then calls rebuilds
    else if id == id_index_settings
    then calls (on_settings at.old_paths at.new_paths)
    else if id == id_help_openlog
    then opens_log (at.data_dir ++ codes "\\winindex.log")
    else if id == id_help_about
    then shows_about
    else if id == id_ctx_open
    then uses (open_selected_file at.exists at.wants_rebuild w.current_results w.selection)
    else if id == id_ctx_opendir
    then uses (open_containing_folder w.current_results w.selection)
    else if id == id_ctx_copypath
    then uses (or_nothing copies (copy_selected_paths false w.current_results w.selection))
    else if id == id_ctx_copyname
    then uses (or_nothing copies (copy_selected_paths true w.current_results w.selection))
    else ignored

-- Whether the context menu is shown, and if so, whether its item to open is enabled.
unfoldable pub on_context_menu : Bool → List ℕ → Option Bool
on_context_menu from_list [] = none
on_context_menu false (i ∷ is) = none
on_context_menu true (i ∷ is) = some (is_empty is)
