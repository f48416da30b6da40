-- ===== src/Ui/Rows/Clipboard.antt =====
-- src/ui/MainWindow.cpp: what copying and cutting leave on the clipboard. Whether memory can be
-- allocated and the clipboard opened are arguments.
use winindex.Prelude.{
  ℕ, ◌≡◌, refl, ◌∙◌, sym, ap, Bool, true, not, Option, none, some, List, map, All, if◌then◌else◌,
  WString,
}
use winindex.Ui.Results.{DisplayEntry}
use winindex.Ui.Rows.{selected, path_list, copy_selected_paths, cut_selected_files}
use winindex.Ui.Rows.Paths.{read_paths, IsText, path_list-read_paths}

-- CF_UNICODETEXT, CF_HDROP and the preferred drop effect.
pub record Clipboard : Type 0 where
  pub text : Option WString
  pub files : Option WString
  pub effect : Option ℕ

pub record ClipboardAccess : Type 0 where
  pub allocates : Bool
  pub allocates_effect : Bool
  pub opens_clipboard : Bool

abbrev pub empty_clipboard : Clipboard
empty_clipboard = record { text = none; files = none; effect = none }

-- The clipboard is emptied before the memory is allocated.
abbrev pub put_text : ClipboardAccess → Option WString → Clipboard → Clipboard
put_text a none c = c
put_text a (some text) c =
    if not a.opens_clipboard
    then c
    else if a.allocates
    then record empty_clipboard { text = some text }
    else empty_clipboard

-- DROPEFFECT_MOVE is 2.
abbrev pub put_files : ClipboardAccess → Option WString → Clipboard → Clipboard
put_files a none c = c
put_files a (some paths) c =
    if not a.allocates then c else if not a.opens_clipboard then c else record empty_clipboard {
      files = some paths;
      effect = if a.allocates_effect then some 2 else none;
    }

-- `CopySelectedPaths`
unfoldable pub copy_to_clipboard :
    ClipboardAccess → Bool → List DisplayEntry → List ℕ → Clipboard → Clipboard
unfolding copy_selected_paths
copy_to_clipboard a filename_only results sel c =
    put_text a (copy_selected_paths filename_only results sel) c

-- `CutSelectedFiles`
unfoldable pub cut_to_clipboard :
    ClipboardAccess → List DisplayEntry → List ℕ → Clipboard → Clipboard
unfolding cut_selected_files
cut_to_clipboard a results sel c = put_files a (cut_selected_files results sel) c

-- Where memory is there and the clipboard opens, a program that pastes the files that are cut reads
-- the paths of the selected results, in order, and that they are to be moved.
pub cut_to_clipboard-read_paths :
    (results : List DisplayEntry) (sel : List ℕ) (paths : WString) (c : Clipboard)
    → All IsText (selected results sel)
    → path_list results sel ≡ some paths
    → let c' =
        cut_to_clipboard
          (record { allocates = true; allocates_effect = true; opens_clipboard = true })
          results
          sel
          c in
      (read_paths c'.files ≡ map (λ (e : DisplayEntry). e.path) (selected results sel))
      × (c'.effect ≡ some 2)
      × (c'.text ≡ none)
unfolding cut_to_clipboard cut_selected_files
cut_to_clipboard-read_paths results sel paths c h e =
    rw e (ap read_paths (sym e) ∙ (path_list-read_paths results sel h).0, refl, refl)
