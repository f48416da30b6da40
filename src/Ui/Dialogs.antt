-- ===== src/Ui/Dialogs.antt =====
-- src/ui/SettingsDialog.cpp, FirstRunDialog.cpp: the two dialogs by the contents of their controls,
-- and their use in src/ui/MainWindow.cpp. The list boxes and the combo box do not sort. _wtoi64, the
-- comparison of LB_FINDSTRINGEXACT and the folders that the user picks are arguments.
pub mod Unchanged
pub mod Procs
pub mod Results
use winindex.Prelude.{
  ℕ, zero, suc, ◌-◌, ◌*◌, ◌/◌, ◌%◌, ◌^◌, Bool, true, false, not, ◌&&◌, ◌||◌, Option, none, some,
  List, [], ◌∷◌, ◌++◌, ◌==◌, any, map, leb, if◌then◌else◌, length, take, is_empty, WString, codes,
  wstr_eq,
}
use winindex.Config.Format.{to_decimal}
use winindex.Config.Settings.{
  Settings, set_selected_drives, set_excluded_paths, set_reindex_interval_hours,
  set_first_run_complete,
}
use winindex.Indexing.Indexer.{DriveFilesystem, ntfs, fat32, other}
use winindex.Indexing.Drives.{DriveInfo}

-- The controls that both dialogs have; `unit` is the choice among hours and days.
pub record Controls : Type 0 where
  pub manual_only : Bool
  pub interval_enabled : Bool
  pub interval : WString
  pub unit : ℕ
  pub exclusions : List WString

pub record SettingsForm : Type 0 where
  pub paths : List WString
  pub controls : Controls

-- Whether hours are shown as days.
abbrev pub in_days : ℕ → Bool
in_days hours = hours % 24 == 0 && leb 24 hours

abbrev pub shown_interval : ℕ → WString
shown_interval hours =
    if hours == 0
    then codes "48"
    else if in_days hours
    then to_decimal (hours / 24)
    else to_decimal hours

abbrev pub shown_unit : ℕ → ℕ
shown_unit hours = if hours == 0 then 0 else if in_days hours then 1 else 0

-- `SettingsDialog::OnInit`
unfoldable pub init_settings : Settings → SettingsForm
unfolding to_decimal
init_settings s = record {
  paths = s.selected_drives;
  controls = record {
    manual_only = s.reindex_interval_hours == 0;
    interval_enabled = not (s.reindex_interval_hours == 0);
    interval = shown_interval s.reindex_interval_hours;
    unit = shown_unit s.reindex_interval_hours;
    exclusions = s.excluded_paths;
  };
}

-- The hours that are entered, 48 where none are. The buffer takes 31 characters.
unfoldable pub entered_hours : (WString → ℕ) → Controls → ℕ
entered_hours wtoi64 c =
    let val = wtoi64 (take 31 c.interval) in
    let hours = if c.unit == 1 then val * 24 % 2 ^ 64 else val in
    if c.manual_only then 0 else if hours == 0 then 48 else hours

-- `SettingsDialog::OnOk`
unfoldable pub ok_settings : (WString → ℕ) → SettingsForm → Settings → Settings
unfolding entered_hours
ok_settings wtoi64 form s = set_excluded_paths form.controls.exclusions (
    set_reindex_interval_hours (entered_hours wtoi64 form.controls)
      (set_selected_drives form.paths s))

-- IDC_MANUAL_ONLY
unfoldable pub set_manual_only : Bool → Controls → Controls
set_manual_only manual c = record c { manual_only = manual; interval_enabled = not manual }

-- LB_DELETESTRING of the current choice, if there is one.
abbrev pub delete_at : ℕ → List WString → List WString
delete_at i [] = []
delete_at zero (w ∷ l) = l
delete_at (suc i) (w ∷ l) = w ∷ delete_at i l

abbrev pub delete_chosen : Option ℕ → List WString → List WString
delete_chosen none l = l
delete_chosen (some i) l = delete_at i l

abbrev pub add_picked : Option WString → List WString → List WString
add_picked none l = l
add_picked (some path) l = l ++ path ∷ []

abbrev pub add_new : (WString → WString → Bool) → Option WString → List WString → List WString
add_new same none l = l
add_new same (some path) l = if any (same path) l then l else l ++ path ∷ []

unfoldable pub on_add_location :
    (WString → WString → Bool) → Option WString → SettingsForm → SettingsForm
on_add_location same picked form = record form { paths = add_new same picked form.paths }

unfoldable pub on_remove_path : Option ℕ → SettingsForm → SettingsForm
on_remove_path chosen form = record form { paths = delete_chosen chosen form.paths }

unfoldable pub on_add_exclusion : Option WString → Controls → Controls
on_add_exclusion picked c = record c { exclusions = add_picked picked c.exclusions }

unfoldable pub on_remove_exclusion : Option ℕ → Controls → Controls
on_remove_exclusion chosen c = record c { exclusions = delete_chosen chosen c.exclusions }

-- The first-run dialog: the drives, and which of them are chosen.
pub record FirstRunForm : Type 0 where
  pub labels : List WString
  pub chosen : List Bool
  pub controls : Controls

abbrev pub kind_text : DriveFilesystem → WString
kind_text ntfs = codes " [NTFS]"
kind_text fat32 = codes " [FAT32]"
kind_text other = codes " [FAT32]"

unfoldable pub drive_label : DriveInfo → WString
drive_label d =
    d.root
    ++ ((if is_empty d.label then [] else codes " (" ++ (d.label ++ codes ")"))
        ++ kind_text d.filesystem)

abbrev pub is_c : DriveInfo → Bool
is_c d = wstr_eq d.root (codes "C:\\") || wstr_eq d.root (codes "C:/")

-- `FirstRunDialog::OnInit`; the box for manual only starts unchecked.
unfoldable pub init_first_run : List DriveInfo → Settings → FirstRunForm
unfolding drive_label
init_first_run drives s = record {
  labels = map drive_label drives;
  chosen = map is_c drives;
  controls = record {
    manual_only = false;
    interval_enabled = true;
    interval = codes "48";
    unit = 0;
    exclusions = s.excluded_paths;
  };
}

abbrev pub chosen_roots : List DriveInfo → List Bool → List WString
chosen_roots [] chosen = []
chosen_roots (d ∷ drives) [] = []
chosen_roots (d ∷ drives) (c ∷ chosen) =
    if c then d.root ∷ chosen_roots drives chosen else chosen_roots drives chosen

-- `FirstRunDialog::OnOk`
unfoldable pub ok_first_run : (WString → ℕ) → List DriveInfo → FirstRunForm → Settings → Settings
unfolding entered_hours
ok_first_run wtoi64 drives form s = set_excluded_paths form.controls.exclusions (
    set_reindex_interval_hours (entered_hours wtoi64 form.controls)
      (set_selected_drives (chosen_roots drives form.chosen) s))

-- The first run in `OnCreate`, with the form as it was confirmed.
abbrev pub confirmed : (WString → ℕ) → List DriveInfo → Option FirstRunForm → Settings → Settings
confirmed wtoi64 drives none s = s
confirmed wtoi64 drives (some form) s = set_first_run_complete (ok_first_run wtoi64 drives form s)

unfoldable pub after_first_run :
    (WString → ℕ) → List DriveInfo → Option FirstRunForm → Settings → Settings
unfolding ok_first_run
after_first_run wtoi64 drives form s = if s.first_run then confirmed wtoi64 drives form s else s
