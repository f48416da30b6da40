-- ===== src/Ui/Rows.antt =====
-- src/ui/MainWindow.cpp: the text of the list's rows, and what the selected rows are used for. The
-- printing of a quotient with two decimals, the local time of a file time, whether a path exists and
-- the answers to message boxes are arguments.
pub mod Paths
pub mod Clipboard
use winindex.Prelude.{
  ℕ, zero, suc, ◌-◌, ◌*◌, ◌^◌, Bool, true, false, Option, none, some, List, [], ◌∷◌, ◌++◌, ◌==◌,
  ltb, if◌then◌else◌, length, take, get_elem?, replicate, is_empty, WString, codes, backslash,
  rfind,
}
use winindex.Config.Format.{to_decimal}
use winindex.Ui.Results.{DisplayEntry}

pub record SystemTime : Type 0 where
  pub year : ℕ
  pub month : ℕ
  pub day : ℕ
  pub hour : ℕ
  pub minute : ℕ

-- `%.2f` of a quotient of doubles, and FileTimeToLocalFileTime with FileTimeToSystemTime.
pub record Printing : Type 0 where
  pub two_decimals : ℕ → ℕ → WString
  pub local_time : ℕ → SystemTime

abbrev pub before : WString → Option ℕ → WString
before path none = path
before path (some slash) = take slash path

-- The column of the path shows the folder.
unfoldable pub folder_text : WString → WString
folder_text path = before path (rfind backslash path)

-- `%0nd`
abbrev pub padded : ℕ → ℕ → WString
padded width n = let s = to_decimal n in replicate (width - length s) b'0' ++ s

unfoldable pub size_text : Printing → ℕ → WString
unfolding to_decimal
size_text out size =
    if ltb size 1024
    then to_decimal size ++ codes " B"
    else if ltb size (1024 * 1024)
    then out.two_decimals size 1024 ++ codes " KB"
    else if ltb size (1024 * 1024 * 1024)
    then out.two_decimals size (1024 * 1024) ++ codes " MB"
    else out.two_decimals size (1024 * 1024 * 1024) ++ codes " GB"

unfoldable pub date_text : SystemTime → WString
unfolding to_decimal
date_text st =
    padded 4 st.year
    ++ (b'-'
        ∷ (padded 2 st.month
            ++ (b'-'
                ∷ (padded 2 st.day ++ (b' ' ∷ (padded 2 st.hour ++ (b':' ∷ padded 2 st.minute)))))))

abbrev pub column_text : Printing → ℕ → DisplayEntry → Option WString
column_text out col e =
    if col == 0
    then some e.name
    else if col == 1
    then some (folder_text e.path)
    else if col == 2
    then some (size_text out e.size)
    else if col == 3
    then some (date_text (out.local_time e.last_modified))
    else none

abbrev pub row_column : Printing → ℕ → Option DisplayEntry → Option WString
row_column out col none = none
row_column out col (some e) = column_text out col e

-- LVN_GETDISPINFO; `none` leaves the text alone.
unfoldable pub row_text : Printing → List DisplayEntry → ℕ → ℕ → Option WString
unfolding folder_text size_text date_text
row_text out results idx col = row_column out col (get_elem? results idx)

-- The loop of ListView_GetNextItem over the selected rows, which stops at one that is no result.
abbrev pub taken : Option DisplayEntry → List DisplayEntry → List DisplayEntry
taken none rest = []
taken (some e) rest = e ∷ rest

unfoldable pub selected : List DisplayEntry → List ℕ → List DisplayEntry
selected results [] = []
selected results (i ∷ is) = taken (get_elem? results i) (selected results is)

abbrev pub lines_of : Bool → List DisplayEntry → WString
lines_of filename_only [] = []
lines_of filename_only (e ∷ es) =
    (if filename_only then e.name else e.path) ++ (codes "\r\n" ++ lines_of filename_only es)

abbrev pub unless_empty : WString → Option WString
unless_empty [] = none
unless_empty (c ∷ text) = some (c ∷ text)

-- The text for the clipboard, if there is one.
unfoldable pub copy_selected_paths : Bool → List DisplayEntry → List ℕ → Option WString
unfolding selected
copy_selected_paths filename_only results sel =
    unless_empty (lines_of filename_only (selected results sel))

abbrev pub terminated : List DisplayEntry → WString
terminated [] = []
terminated (e ∷ es) = e.path ++ (0 ∷ terminated es)

abbrev pub doubly_terminated : WString → Option WString
doubly_terminated [] = none
doubly_terminated (c ∷ paths) = some ((c ∷ paths) ++ 0 ∷ [])

-- The list of paths that is cut, dragged or deleted, ended by two NULs.
unfoldable pub path_list : List DisplayEntry → List ℕ → Option WString
unfolding selected
path_list results sel = doubly_terminated (terminated (selected results sel))

unfoldable pub cut_selected_files : List DisplayEntry → List ℕ → Option WString
unfolding path_list
cut_selected_files results sel = path_list results sel

unfoldable pub on_begin_drag : List DisplayEntry → List ℕ → Option WString
unfolding path_list
on_begin_drag results sel = path_list results sel

-- `confirmed` is the answer to the question whether to delete.
unfoldable pub delete_selected_files : Bool → List DisplayEntry → List ℕ → Option WString
unfolding path_list
delete_selected_files confirmed results [] = none
delete_selected_files confirmed results (i ∷ is) =
    if confirmed then path_list results (i ∷ is) else none

-- What a key or a double click in the list comes to.
pub data Effect : Type 0 where
  opens shows_folder copies moves deletes : WString → Effect
  rebuilds nothing : Effect

abbrev pub or_nothing : (WString → Effect) → Option WString → Effect
or_nothing f none = nothing
or_nothing f (some text) = f text

abbrev pub first_selected : List DisplayEntry → List ℕ → Option DisplayEntry
first_selected results [] = none
first_selected results (i ∷ is) = get_elem? results i

-- `PreCheckFileExists` in front of the opening; `wants_rebuild` is the answer when there is no file.
abbrev pub open_entry : (WString → Bool) → Bool → Option DisplayEntry → Effect
open_entry exists wants_rebuild none = nothing
open_entry exists wants_rebuild (some e) =
    if exists e.path then opens e.path else if wants_rebuild then rebuilds else nothing

unfoldable pub open_selected_file : (WString → Bool) → Bool → List DisplayEntry → List ℕ → Effect
open_selected_file exists wants_rebuild results sel =
    open_entry exists wants_rebuild (first_selected results sel)

unfoldable pub on_list_dbl_click : (WString → Bool) → Bool → List DisplayEntry → List ℕ → Effect
on_list_dbl_click exists wants_rebuild results sel =
    open_entry exists wants_rebuild (first_selected results sel)

abbrev pub folder_of : Option DisplayEntry → Effect
folder_of none = nothing
folder_of (some e) = shows_folder e.path

unfoldable pub open_containing_folder : List DisplayEntry → List ℕ → Effect
open_containing_folder results sel = folder_of (first_selected results sel)

-- VK_RETURN, VK_DELETE, and the letters C and X.
unfoldable pub on_list_key_down :
    (WString → Bool) → Bool → Bool → ℕ → Bool → List DisplayEntry → List ℕ → Effect
unfolding open_selected_file open_containing_folder copy_selected_paths cut_selected_files
    delete_selected_files
on_list_key_down exists wants_rebuild confirmed key ctrl results sel =
    if key == 13
    then (if ctrl
        then open_containing_folder results sel
        else open_selected_file exists wants_rebuild results sel)
    else if key == b'C'
    then (if ctrl then or_nothing copies (copy_selected_paths false results sel) else nothing)
    else if key == b'X'
    then (if ctrl then or_nothing moves (cut_selected_files results sel) else nothing)
    else if key == 46
    then or_nothing deletes (delete_selected_files confirmed results sel)
    else nothing
