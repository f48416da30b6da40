-- ===== src/Tests/Config.antt =====
-- The settings, the log and the formatted texts on concrete inputs.
use mathlib.Core.Bool.{false≢true}
use winindex.Prelude.{
  ℕ, ◌-◌, ◌≡◌, refl, ap, is_empty, true, false, ◌&&◌, [], ◌∷◌, arith, leb, if◌then◌else◌, WString,
  codes,
}
use winindex.Config.Logger.{Logger, info, debug, to_wstring}
use winindex.Config.Logger.Laws.{KeepsCapitals}
use winindex.Config.Format.{
  age_of, digits_onto, comma_loop, to_decimal, format_file_count, format_age, print_age,
  format_location_list, locations_onto, short_location, without_separator, is_drive_root,
}
use winindex.Config.Settings.{
  Settings, Key, Profile, join_list, load_settings, save_settings, first_run_complete,
  log_level_key, selected_drives_key, excluded_paths_key, reindex_interval_key, use_regex_key,
  case_sensitive_key, whole_word_key, match_path_key, ignore_diacritics_key,
}
use winindex.Config.Settings.Reload.{IsSavable, ReadsBack, load_settings-save_settings}

abbrev ascii_upper : ℕ → ℕ
ascii_upper c = if leb 97 c && leb c 122 then c - 32 else c

ascii_upper-KeepsCapitals : KeepsCapitals ascii_upper
ascii_upper-KeepsCapitals c low high = ground arith

abbrev logger : Logger
logger = record { path = codes "C:\\winindex.log"; level = info; lines = [] }

format_file_count_run : format_file_count 1234567 ≡ codes "1,234,567"
unfolding format_file_count comma_loop to_decimal digits_onto
format_file_count_run = refl

format_age_run : format_age 200000 ≡ codes "2 days, 7 hrs old"
unfolding format_age age_of print_age to_decimal digits_onto
format_age_run = refl

format_location_list_run :
    format_location_list (codes "C:\\" ∷ (codes "D:\\Work\\" ∷ [])) ≡ codes "C:, D:\\Work"
unfolding format_location_list locations_onto short_location without_separator is_drive_root
format_location_list_run = refl

abbrev pub saved : Settings
saved = record {
  portable = true;
  data_dir = codes "E:";
  ini_path = codes "E:\\winindex.ini";
  selected_drives = codes "C:\\" ∷ [];
  excluded_paths = codes "C:\\Temp" ∷ [];
  reindex_interval_hours = 24;
  search_options = record {
    use_regex = true;
    case_sensitive = false;
    whole_word = true;
    match_path = false;
    ignore_diacritics = true;
  };
  first_run = false;
  log_level = debug;
}

abbrev saved_text : Key → WString → WString
saved_text selected_drives_key d = codes "C:\\;"
saved_text excluded_paths_key d = codes "C:\\Temp|"
saved_text log_level_key d = codes "DEBUG"
saved_text _ d = d

abbrev saved_int : Key → ℕ → ℕ
saved_int first_run_complete d = 1
saved_int reindex_interval_key d = 24
saved_int use_regex_key d = 1
saved_int case_sensitive_key d = 0
saved_int whole_word_key d = 1
saved_int match_path_key d = 0
saved_int ignore_diacritics_key d = 1
saved_int _ d = d

abbrev profile : Profile
profile = record { get_string = saved_text; get_int = saved_int }

saved-IsSavable : IsSavable saved
unfolding join_list
saved-IsSavable = record {
  drives_saved = ((refl, (refl, (refl, (refl, tt)))), tt);
  drives_fit = omega arith;
  paths_saved = ((refl, (refl, (refl, (refl, (refl, (refl, (refl, (refl, tt)))))))), tt);
  paths_fit = omega arith;
  hours_fit = omega arith;
}

saved-ReadsBack : ReadsBack profile (save_settings saved)
unfolding save_settings join_list to_wstring
saved-ReadsBack = (
  λ d. refl,
  (
    λ d. refl,
    (
      λ d. refl,
      (λ d. refl, (λ d. refl, (λ d. refl, (λ d. refl, (λ d. refl, (λ d. refl, (λ d. refl, tt))))))),
    ),
  ),
)

load_settings-save_settings_example :
    load_settings ascii_upper (codes "C:\\Windows" ∷ []) profile saved ≡ record saved {
      portable = saved.portable;
      data_dir = saved.data_dir;
      ini_path = saved.ini_path;
    }
load_settings-save_settings_example =
    load_settings-save_settings ascii_upper (codes "C:\\Windows" ∷ []) profile saved saved
      ascii_upper-KeepsCapitals saved-IsSavable saved-ReadsBack (λ e. false≢true (ap is_empty e))

abbrev cleared : Settings
cleared = record saved { excluded_paths = [] }

abbrev cleared_text : Key → WString → WString
cleared_text excluded_paths_key d = []
cleared_text k d = saved_text k d

abbrev cleared_profile : Profile
cleared_profile = record { get_string = cleared_text; get_int = saved_int }

cleared-IsSavable : IsSavable cleared
unfolding join_list
cleared-IsSavable = record {
  drives_saved = ((refl, (refl, (refl, (refl, tt)))), tt);
  drives_fit = omega arith;
  paths_saved = tt;
  paths_fit = omega arith;
  hours_fit = omega arith;
}

cleared-ReadsBack : ReadsBack cleared_profile (save_settings cleared)
unfolding save_settings join_list to_wstring
cleared-ReadsBack = (
  λ d. refl,
  (
    λ d. refl,
    (
      λ d. refl,
      (λ d. refl, (λ d. refl, (λ d. refl, (λ d. refl, (λ d. refl, (λ d. refl, (λ d. refl, tt))))))),
    ),
  ),
)
