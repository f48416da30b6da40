-- ===== src/Ui/Startup.antt =====
-- src/ui/MainWindow.cpp: the settings that `OnCreate` starts with.
use winindex.Prelude.{
  ℕ, ◌≡◌, refl, ◌∙◌, Bool, true, false, Option, none, some, List, ◌++◌, WString, codes,
  if◌then◌else◌,
}
use winindex.Config.Paths.{get_exe_directory, is_portable_mode}
use winindex.Config.Settings.{Settings, Profile, new_settings, load_settings}
use winindex.Indexing.Drives.{DriveInfo}
use winindex.Ui.Dialogs.{FirstRunForm, confirmed, ok_first_run, after_first_run}

-- What the start meets: the C library, the files and folders of the system, the INI file by its path,
-- and the dialog of the first run if it is confirmed.
pub record Host : Type 0 where
  pub towupper : ℕ → ℕ
  pub wtoi64 : WString → ℕ
  pub exists : WString → Bool
  pub module_name : WString
  pub app_data : WString
  pub profile : WString → Profile
  pub default_excluded : List WString
  pub local_drives : List DriveInfo
  pub first_run_form : Option FirstRunForm

unfoldable pub constructed : Host → Settings
constructed h =
    new_settings (is_portable_mode h.exists h.module_name) (get_exe_directory h.module_name)
      h.app_data

unfoldable pub loaded : Host → Settings
unfolding constructed
loaded h =
    let s = constructed h in load_settings h.towupper h.default_excluded (h.profile s.ini_path) s

unfoldable pub on_create : Host → Settings
unfolding loaded
on_create h = after_first_run h.wtoi64 h.local_drives h.first_run_form (loaded h)

either-ini_path :
    (b : Bool) (s' s : Settings)
    → s'.ini_path ≡ s.ini_path
    → (if b then s' else s).ini_path ≡ s.ini_path
either-ini_path true s' s same = same
either-ini_path false s' s same = refl

after_first_run-ini_path :
    (wtoi64 : WString → ℕ) (drives : List DriveInfo) (form : Option FirstRunForm) (s : Settings)
    → (after_first_run wtoi64 drives form s).ini_path ≡ s.ini_path
unfolding after_first_run ok_first_run
after_first_run-ini_path wtoi64 drives none s = either-ini_path s.first_run s s refl
after_first_run-ini_path wtoi64 drives (some form) s =
    either-ini_path s.first_run (confirmed wtoi64 drives (some form) s) s refl

-- The INI file is the one beside the program if that exists, and else the one in the user's folder.
pub on_create-ini_path :
    (h : Host)
    → (on_create h).ini_path ≡ (
        let beside = get_exe_directory h.module_name ++ codes "\\winindex.ini" in
        if h.exists beside
        then beside
        else (h.app_data ++ codes "\\winindex") ++ codes "\\winindex.ini")
unfolding on_create loaded constructed new_settings load_settings is_portable_mode
on_create-ini_path h =
    after_first_run-ini_path h.wtoi64 h.local_drives h.first_run_form (loaded h)
    ∙ place (h.exists (get_exe_directory h.module_name ++ codes "\\winindex.ini"))
  where
    place :
        (b : Bool)
        → ((if b then get_exe_directory h.module_name else h.app_data ++ codes "\\winindex")
            ++ codes "\\winindex.ini")
          ≡ (if b
              then get_exe_directory h.module_name ++ codes "\\winindex.ini"
              else (h.app_data ++ codes "\\winindex") ++ codes "\\winindex.ini")
    place true = refl
    place false = refl
