-- ===== src/Config/Settings/Reload.antt =====
-- `Load` after `Save`, through a system whose reads return what was written.
use winindex.Prelude.{
  ℕ, ◌%◌, ◌^◌, ◌≤◌, ◌<◌, ◌≡◌, ◌≢◌, refl, ap, ◌∙◌, Bool, true, false, not, List, [], ◌∷◌, arith,
  ◌==◌, if◌then◌else◌, All, length, take-all, WString, is_empty, codes,
}
use winindex.Config.Logger.{LogLevel, to_wstring, try_parse_log_level}
use winindex.Config.Logger.Laws.{KeepsCapitals, try_parse_log_level-to_wstring}
use winindex.Config.Settings.{
  Settings, Key, Value, text, int, Profile, case_sensitive_key, excluded_paths_key,
  first_run_complete, ignore_diacritics_key, log_level_key, match_path_key, or_warning,
  reindex_interval_key, selected_drives_key, use_regex_key, whole_word_key, read_string, int_to_u64,
  load_settings, save_settings, join_list, split_list, as_int,
}
use winindex.Config.Settings.Lists.{CanSave, split_list-join_list}

abbrev pub ReadsValue : Profile → Key → Value → Type 0
ReadsValue ini key (text v) = (default_val : WString) → ini.get_string key default_val ≡ v
ReadsValue ini key (int w) = (default_val : ℕ) → ini.get_int key default_val ≡ w

-- The system reads under each key what was written, whatever the default.
abbrev pub ReadsBack : Profile → List (Key × Value) → Type 0
ReadsBack ini = All (λ w. ReadsValue ini (w.0) (w.1))

-- The lists fit the buffer of `ReadString`, and the interval an int.
pub record IsSavable (s : Settings) : Type 0 where
  pub drives_saved : All (CanSave b';') s.selected_drives
  pub drives_fit : length (join_list b';' s.selected_drives) ≤ 4095
  pub paths_saved : All (CanSave b'|') s.excluded_paths
  pub paths_fit : length (join_list b'|' s.excluded_paths) ≤ 4095
  pub hours_fit : s.reindex_interval_hours < 2 ^ 31

read_string-text :
    (ini : Profile) (key : Key) (v default_val : WString)
    → ReadsValue ini key (text v)
    → length v ≤ 4095
    → read_string ini key default_val ≡ v
unfolding read_string
read_string-text ini key v default_val r h = rw (r default_val) (take-all 4095 v h)

is_empty-join_list : (sep : ℕ) (ds : List WString) → is_empty (join_list sep ds) ≡ is_empty ds
unfolding join_list
is_empty-join_list sep [] = refl
is_empty-join_list sep ([] ∷ ds) = refl
is_empty-join_list sep ((c ∷ d) ∷ ds) = refl

length-to_wstring : (l : LogLevel) → length (to_wstring l) ≤ 4095
unfolding to_wstring
length-to_wstring l = elim l as (λ x. length (to_wstring x) ≤ 4095) [
  | LogLevel.critical ↦ omega arith
  | LogLevel.error ↦ omega arith
  | LogLevel.warning ↦ omega arith
  | LogLevel.info ↦ omega arith
  | LogLevel.debug ↦ omega arith
  | LogLevel.verbose ↦ omega arith
]

flag-as_int : (b : Bool) → not (as_int b == 0) ≡ b
flag-as_int true = refl
flag-as_int false = refl

first_run-as_int : (b : Bool) → ((if b then 0 else 1) == 0) ≡ b
first_run-as_int true = refl
first_run-as_int false = refl

int_to_u64-exact : (h : ℕ) → h < 2 ^ 31 → int_to_u64 (h % 2 ^ 32) ≡ h
unfolding int_to_u64
int_to_u64-exact h small = let e : h % 2 ^ 32 ≡ h = omega arith in rw e (ground arith)

read_list :
    (ini : Profile) (key : Key) (sep : ℕ) (ds : List WString)
    → ReadsValue ini key (text (join_list sep ds))
    → All (CanSave sep) ds
    → length (join_list sep ds) ≤ 4095
    → split_list sep (read_string ini key []) ≡ ds
read_list ini key sep ds r saved fit =
    ap (split_list sep) (read_string-text ini key (join_list sep ds) [] r fit)
    ∙ split_list-join_list sep ds saved

is_empty-full : (ds : List WString) → ds ≢ [] → is_empty ds ≡ false
is_empty-full [] h = absurd (h refl)
is_empty-full (d ∷ ds) h = refl

read_excluded :
    (ini : Profile) (key : Key) (defaults ds : List WString)
    → ReadsValue ini key (text (join_list b'|' ds))
    → All (CanSave b'|') ds
    → length (join_list b'|' ds) ≤ 4095
    → ds ≢ []
    → (if is_empty (read_string ini key [])
        then defaults
        else split_list b'|' (read_string ini key []))
      ≡ ds
read_excluded ini key defaults ds r saved fit full =
    let e = read_string-text ini key (join_list b'|' ds) [] r fit in
    rw (e, is_empty-join_list b'|' ds, is_empty-full ds full) (split_list-join_list b'|' ds saved)

read_flag :
    (ini : Profile) (key : Key) (b : Bool)
    → ReadsValue ini key (int (as_int b))
    → not (ini.get_int key 0 == 0) ≡ b
read_flag ini key b r = rw (r 0) (flag-as_int b)

read_level :
    (towupper : ℕ → ℕ) (ini : Profile) (key : Key) (l : LogLevel) (default_val : WString)
    → KeepsCapitals towupper
    → ReadsValue ini key (text (to_wstring l))
    → or_warning (try_parse_log_level towupper (read_string ini key default_val)) ≡ l
read_level towupper ini key l default_val capitals r =
    ap (λ v. or_warning (try_parse_log_level towupper v))
      (read_string-text ini key (to_wstring l) default_val r (length-to_wstring l))
    ∙ ap or_warning (try_parse_log_level-to_wstring towupper l (to_wstring l) capitals refl)

module _ (towupper : ℕ → ℕ) (defaults : List WString) (ini : Profile) (s t : Settings)
    (capitals : KeepsCapitals towupper) (savable : IsSavable s)
    (reads_back : ReadsBack ini (save_settings s)) where
  -- If the system reads back what was written, `towupper` keeps the capitals, the paths are not
  -- empty and have no separator in them, each list fits 4095 characters, the interval fits an
  -- int, and the list of excluded paths is not empty, then loading after saving gives back every
  -- setting.
  pub load_settings-save_settings :
      s.excluded_paths ≢ []
      → load_settings towupper defaults ini t
        ≡ record s { portable = t.portable; data_dir = t.data_dir; ini_path = t.ini_path }
  unfolding load_settings save_settings
  load_settings-save_settings some_paths =
      let r0 = reads_back.1 in
      let r1 = r0.1 in
      let r2 = r1.1 in
      let r3 = r2.1 in
      let r4 = r3.1 in
      let r5 = r4.1 in
      let r6 = r5.1 in
      let r7 = r6.1 in
      let r8 = r7.1 in
      let o = s.search_options in
      let first : (ini.get_int first_run_complete 0 == 0) ≡ s.first_run =
        rw (reads_back.0 0) (first_run-as_int s.first_run) in
      let drives =
        read_list ini selected_drives_key b';' s.selected_drives r0.0 savable.drives_saved
          savable.drives_fit in
      let paths =
        read_excluded ini excluded_paths_key defaults s.excluded_paths r1.0 savable.paths_saved
          savable.paths_fit some_paths in
      let hours : int_to_u64 (ini.get_int reindex_interval_key 48) ≡ s.reindex_interval_hours =
        rw (r2.0 48) (int_to_u64-exact s.reindex_interval_hours savable.hours_fit) in
      let regex = read_flag ini use_regex_key o.use_regex r3.0 in
      let case = read_flag ini case_sensitive_key o.case_sensitive r4.0 in
      let word = read_flag ini whole_word_key o.whole_word r5.0 in
      let path = read_flag ini match_path_key o.match_path r6.0 in
      let fold = read_flag ini ignore_diacritics_key o.ignore_diacritics r7.0 in
      let level =
        read_level towupper ini log_level_key s.log_level (codes "WARNING") capitals r8.0 in
      λ i. record {
        portable = t.portable;
        data_dir = t.data_dir;
        ini_path = t.ini_path;
        selected_drives = drives i;
        excluded_paths = paths i;
        reindex_interval_hours = hours i;
        search_options = record {
          use_regex = regex i;
          case_sensitive = case i;
          whole_word = word i;
          match_path = path i;
          ignore_diacritics = fold i;
        };
        first_run = first i;
        log_level = level i;
      }

  -- Under the same conditions, but with no excluded paths, loading after saving gives the default
  -- list instead of the empty one.
  pub load_settings-reseeds :
      s.excluded_paths ≡ []
      → Settings.excluded_paths (load_settings towupper defaults ini t) ≡ defaults
  unfolding load_settings save_settings
  load_settings-reseeds none_left =
      let e =
        read_string-text ini excluded_paths_key (join_list b'|' s.excluded_paths) []
          reads_back.1.1.0 savable.paths_fit in
      rw (e, is_empty-join_list b'|' s.excluded_paths, none_left) refl
