-- ===== src/Ui/Dialogs/Procs.antt =====
-- src/ui/SettingsDialog.cpp, FirstRunDialog.cpp: `DlgProc` and `Show` of both dialogs, for every
-- sequence of what the user does until one of the buttons ends the dialog.
use winindex.Prelude.{
  ℕ, Bool, true, false, Option, none, some, List, [], ◌∷◌, ◌==◌, if◌then◌else◌, WString,
}
use winindex.Config.Settings.{Settings}
use winindex.Indexing.Drives.{DriveInfo}
use winindex.Ui.Ids.{
  idc_manual_only, idc_excl_add, idc_excl_remove, idc_path_add_location, idc_path_remove,
}
use winindex.Ui.Dialogs.{
  Controls, SettingsForm, FirstRunForm, ok_settings, ok_first_run, set_manual_only, on_add_location,
  on_remove_path, on_add_exclusion, on_remove_exclusion,
}

-- A command, with what its handler asks for: whether the box is checked, the folder that is picked,
-- and the current row of the list. The other events are edits that the controls handle themselves.
pub data DialogEvent : Type 0 where
  command : ℕ → Bool → Option WString → Option ℕ → DialogEvent
  interval_typed : WString → DialogEvent
  unit_chosen : ℕ → DialogEvent
  drives_chosen : List Bool → DialogEvent

-- IDOK and IDCANCEL are 1 and 2.
abbrev pub ending : ℕ → Option Bool
ending id = if id == 1 then some true else if id == 2 then some false else none

-- The commands that both dialogs have.
unfoldable pub on_shared_command : ℕ → Bool → Option WString → Option ℕ → Controls → Controls
unfolding set_manual_only on_add_exclusion on_remove_exclusion
on_shared_command id checked picked row c =
    if id == idc_manual_only
    then set_manual_only checked c
    else if id == idc_excl_add
    then on_add_exclusion picked c
    else if id == idc_excl_remove
    then on_remove_exclusion row c
    else c

unfoldable pub on_edit : DialogEvent → Controls → Controls
unfolding on_shared_command
on_edit (command id checked picked row) c = on_shared_command id checked picked row c
on_edit (interval_typed text) c = record c { interval = text }
on_edit (unit_chosen unit) c = record c { unit = unit }
on_edit (drives_chosen chosen) c = c

abbrev pub ends_by : DialogEvent → Option Bool
ends_by (command id checked picked row) = ending id
ends_by _ = none

module _ (same : WString → WString → Bool) where
  -- `SettingsDialog::DlgProc` apart from the buttons.
  abbrev pub on_path_command : DialogEvent → SettingsForm → SettingsForm
  on_path_command (command id checked picked row) form =
      if id == idc_path_add_location
      then on_add_location same picked form
      else if id == idc_path_remove
      then on_remove_path row form
      else form
  on_path_command _ form = form

  unfoldable pub settings_proc : DialogEvent → SettingsForm → SettingsForm
  unfolding on_edit on_add_location on_remove_path
  settings_proc e form = on_path_command e (record form { controls = on_edit e form.controls })

  -- `SettingsDialog::Show`: whether it was confirmed, and the settings; `none` while it is open.
  unfoldable pub show_settings :
      (WString → ℕ) → List DialogEvent → SettingsForm → Settings → Option (Bool × Settings)
  unfolding settings_proc ok_settings
  show_settings wtoi64 [] form s = none
  show_settings wtoi64 (e ∷ es) form s = elim (ends_by e) [
    | none ↦ show_settings wtoi64 es (settings_proc e form) s
    | some confirmed ↦ some (confirmed, if confirmed then ok_settings wtoi64 form s else s)
  ]

-- `FirstRunDialog::DlgProc` and `FirstRunDialog::Show`.
abbrev pub on_drives : DialogEvent → FirstRunForm → FirstRunForm
on_drives (drives_chosen chosen) form = record form { chosen = chosen }
on_drives _ form = form

unfoldable pub first_run_proc : DialogEvent → FirstRunForm → FirstRunForm
unfolding on_edit
first_run_proc e form = on_drives e (record form { controls = on_edit e form.controls })

unfoldable pub show_first_run :
    (WString → ℕ)
    → List DriveInfo
    → List DialogEvent
    → FirstRunForm
    → Settings
    → Option (Bool × Settings)
unfolding first_run_proc ok_first_run
show_first_run wtoi64 drives [] form s = none
show_first_run wtoi64 drives (e ∷ es) form s = elim (ends_by e) [
  | none ↦ show_first_run wtoi64 drives es (first_run_proc e form) s
  | some confirmed ↦ some (confirmed, if confirmed then ok_first_run wtoi64 drives form s else s)
]
