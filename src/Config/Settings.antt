-- ===== src/Config/Settings.antt =====
-- src/core/settings/Settings.h, Settings.cpp. The INI file is the system's: `Save` gives the values
-- that it writes, and `Load` reads through `GetPrivateProfileStringW` and `GetPrivateProfileIntW`,
-- which are arguments. An int is its 32-bit pattern.
pub mod Lists
pub mod Reload
use winindex.Prelude.{
  ℕ, ◌+◌, ◌-◌, ◌%◌, ◌^◌, Bool, true, false, not, Option, none, some, List, [], ◌∷◌, ◌++◌, map, ltb,
  ◌==◌, if◌then◌else◌, take, WString, codes, is_empty,
}
use winindex.Config.Logger.{LogLevel, warning, to_wstring, try_parse_log_level}
use winindex.Search.Engine.{SearchOptions}

pub record Settings : Type 0 where
  pub portable : Bool
  pub data_dir : WString
  pub ini_path : WString
  pub selected_drives : List WString
  pub excluded_paths : List WString
  pub reindex_interval_hours : ℕ
  pub search_options : SearchOptions
  pub first_run : Bool
  pub log_level : LogLevel

abbrev k_reindex_default_hours : ℕ
k_reindex_default_hours = 48

-- The constructor; `app_data` is what `SHGetFolderPathW` gives.
unfoldable pub new_settings : Bool → WString → WString → Settings
new_settings portable_mode exe_dir app_data =
    let dir = if portable_mode then exe_dir else app_data ++ codes "\\winindex" in
    record {
      portable = portable_mode;
      data_dir = dir;
      ini_path = dir ++ codes "\\winindex.ini";
      selected_drives = [];
      excluded_paths = [];
      reindex_interval_hours = k_reindex_default_hours;
      search_options = record {
        use_regex = false;
        case_sensitive = false;
        whole_word = false;
        match_path = false;
        ignore_diacritics = false;
      };
      first_run = true;
      log_level = warning;
    }

-- The setters.
abbrev pub set_selected_drives : List WString → Settings → Settings
set_selected_drives drives s = record s { selected_drives = drives }

abbrev pub set_excluded_paths : List WString → Settings → Settings
set_excluded_paths paths s = record s { excluded_paths = paths }

abbrev pub set_reindex_interval_hours : ℕ → Settings → Settings
set_reindex_interval_hours h s = record s { reindex_interval_hours = h }

abbrev pub set_search_options : SearchOptions → Settings → Settings
set_search_options o s = record s { search_options = o }

abbrev pub set_first_run_complete : Settings → Settings
set_first_run_complete s = record s { first_run = false }

-- The keys, each in its section.
pub data Key : Type 0 where
  first_run_complete log_level_key : Key
  selected_drives_key excluded_paths_key reindex_interval_key : Key
  use_regex_key case_sensitive_key whole_word_key match_path_key ignore_diacritics_key : Key

-- What the system reads from the file: a text with its default, and an int with its default.
pub record Profile : Type 0 where
  pub get_string : Key → WString → WString
  pub get_int : Key → ℕ → ℕ

-- `ReadString` has room for 4095 characters and a terminator.
unfoldable pub read_string : Profile → Key → WString → WString
read_string ini key default_val = take 4095 (ini.get_string key default_val)

-- `static_cast<uint64_t>` of an int.
unfoldable pub int_to_u64 : ℕ → ℕ
int_to_u64 w = if ltb w (2 ^ 31) then w else w + 2 ^ 64 - 2 ^ 32

-- The loop of `std::getline`, with the characters since the last separator: each token that is not
-- empty, and the rest at the end.
abbrev pub add_token : WString → List WString → List WString
add_token [] tokens = tokens
add_token (c ∷ cs) tokens = (c ∷ cs) ∷ tokens

unfoldable pub split_from : ℕ → WString → WString → List WString
split_from sep token [] = add_token token []
split_from sep token (c ∷ cs) = elim (c == sep) [
  | true ↦ add_token token (split_from sep [] cs)
  | false ↦ split_from sep (token ++ (c ∷ [])) cs
]

unfoldable pub split_list : ℕ → WString → List WString
unfolding split_from
split_list sep s = split_from sep [] s

-- `for (d : list) str += d + sep`
unfoldable pub join_list : ℕ → List WString → WString
join_list sep [] = []
join_list sep (d ∷ ds) = d ++ (sep ∷ join_list sep ds)

-- The system drive's folders and the user's two AppData folders, if the shell knows them.
unfoldable pub default_excluded_paths : WString → Option WString → Option WString → List WString
default_excluded_paths win_dir roaming local =
    let p = λ (rel : WString). take 3 win_dir ++ rel in
    p (codes "Windows")
    ∷ (p (codes "Program Files")
        ∷ (p (codes "Program Files (x86)")
            ∷ (p (codes "ProgramData")
                ∷ (p (codes "$Recycle.Bin")
                    ∷ (p (codes "System Volume Information")
                        ∷ (p (codes "drivers") ∷ (shell_path roaming ++ shell_path local)))))))
  where
    shell_path : Option WString → List WString
    shell_path none = []
    shell_path (some dir) = dir ∷ []

abbrev pub or_warning : Option LogLevel → LogLevel
or_warning none = warning
or_warning (some l) = l

unfoldable pub load_settings : (ℕ → ℕ) → List WString → Profile → Settings → Settings
load_settings towupper defaults ini s =
    let excl = read_string ini excluded_paths_key [] in
    let flag = λ (key : Key). not (ini.get_int key 0 == 0) in
    record s {
      first_run = ini.get_int first_run_complete 0 == 0;
      selected_drives = split_list b';' (read_string ini selected_drives_key []);
      excluded_paths = if is_empty excl then defaults else split_list b'|' excl;
      reindex_interval_hours =
          int_to_u64 (ini.get_int reindex_interval_key k_reindex_default_hours);
      search_options = record {
        use_regex = flag use_regex_key;
        case_sensitive = flag case_sensitive_key;
        whole_word = flag whole_word_key;
        match_path = flag match_path_key;
        ignore_diacritics = flag ignore_diacritics_key;
      };
      log_level =
          or_warning
            (try_parse_log_level towupper (read_string ini log_level_key (codes "WARNING")));
    }

abbrev pub as_int : Bool → ℕ
as_int b = if b then 1 else 0

-- The texts and the ints that `Save` writes under each key.
pub data Value : Type 0 where
  text : WString → Value
  int : ℕ → Value

unfoldable pub save_settings : Settings → List (Key × Value)
save_settings s =
    let o = s.search_options in
    (first_run_complete, int (if s.first_run then 0 else 1))
    ∷ ((selected_drives_key, text (join_list b';' s.selected_drives))
        ∷ ((excluded_paths_key, text (join_list b'|' s.excluded_paths))
            ∷ ((reindex_interval_key, int (s.reindex_interval_hours % 2 ^ 32))
                ∷ ((use_regex_key, int (as_int o.use_regex))
                    ∷ ((case_sensitive_key, int (as_int o.case_sensitive))
                        ∷ ((whole_word_key, int (as_int o.whole_word))
                            ∷ ((match_path_key, int (as_int o.match_path))
                                ∷ ((ignore_diacritics_key, int (as_int o.ignore_diacritics))
                                    ∷ ((log_level_key, text (to_wstring s.log_level)) ∷ [])))))))))
