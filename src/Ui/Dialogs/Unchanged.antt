-- ===== src/Ui/Dialogs/Unchanged.antt =====
-- What a dialog leaves that is confirmed as it opened.
use winindex.Prelude.{
  some, ℕ, zero, suc, ◌+◌, ◌*◌, ◌/◌, ◌%◌, ◌^◌, ◌≡◌, ◌≤◌, ◌<◌, refl, ap, ◌∙◌, Bool, true, false, not,
  List, [], ◌∷◌, ◌==◌, map, filter, if◌then◌else◌, length, take, take-all, WString, codes, arith,
  Bool-cases, inl, inr,
}
use winindex.Config.Format.{digits_onto, to_decimal}
use winindex.Config.Settings.{Settings}
use winindex.Indexing.Drives.{DriveInfo}
use winindex.Ui.Dialogs.{
  in_days, shown_interval, shown_unit, init_settings, entered_hours, ok_settings, is_c,
  init_first_run, chosen_roots, ok_first_run, confirmed, after_first_run,
}

-- _wtoi64 reads the decimal numerals of the non-negative __int64.
abbrev pub ReadsDecimals : (WString → ℕ) → Type 0
ReadsDecimals wtoi64 = (n : ℕ) → n < 2 ^ 63 → wtoi64 (to_decimal n) ≡ n

digits_onto-length :
    (fuel n : ℕ) (tail : WString) → length (digits_onto fuel n tail) ≤ fuel + length tail
unfolding digits_onto
digits_onto-length zero n tail = omega arith
digits_onto-length (suc fuel) n tail =
    ground (arith, digits_onto-length fuel (n / 10) ((n % 10 + b'0') ∷ tail))

whole_numeral : (n : ℕ) → take 31 (to_decimal n) ≡ to_decimal n
unfolding to_decimal
whole_numeral n = take-all 31 (digits_onto 20 n []) (omega (arith, digits_onto-length 20 n []))

module _ (wtoi64 : WString → ℕ) (reads : ReadsDecimals wtoi64) where
  entered_hours-shown :
      (hours : ℕ) (enabled : Bool) (exclusions : List WString)
      → hours < 2 ^ 63
      → entered_hours wtoi64 (record {
        manual_only = hours == 0;
        interval_enabled = enabled;
        interval = shown_interval hours;
        unit = shown_unit hours;
        exclusions = exclusions;
      })
        ≡ hours
  unfolding entered_hours
  entered_hours-shown hours enabled exclusions h = elim (Bool-cases (hours == 0)) [
    | inl manual ↦ rw (manual) (ground arith)
    | inr timed ↦ elim (Bool-cases (in_days hours)) [
      | inl days ↦
          let val : wtoi64 (take 31 (to_decimal (hours / 24))) ≡ hours / 24 =
            ap wtoi64 (whole_numeral (hours / 24)) ∙ reads (hours / 24) (omega arith) in
          rw (timed, days, val) (whole_days hours timed days h)
      | inr not_days ↦
          let val : wtoi64 (take 31 (to_decimal hours)) ≡ hours =
            ap wtoi64 (whole_numeral hours) ∙ reads hours h in
          rw (timed, not_days, val, timed) refl
    ]
  ]
    where
      whole_days :
          (n : ℕ)
          → (n == 0) ≡ false
          → in_days n ≡ true
          → n < 2 ^ 63
          → (if n / 24 * 24 % 2 ^ 64 == 0 then 48 else n / 24 * 24 % 2 ^ 64) ≡ n
      whole_days n p q h = ground arith

  -- If _wtoi64 reads the decimal numerals below 2^63 and the interval is below 2^63, then
  -- confirming the settings dialog as it opened leaves the settings as they were, with hours
  -- shown as days and manual reindexing included.
  pub ok_settings-init_settings :
      (s : Settings)
      → s.reindex_interval_hours < 2 ^ 63
      → ok_settings wtoi64 (init_settings s) s ≡ s
  unfolding ok_settings init_settings
  ok_settings-init_settings s h =
      ap (λ (n : ℕ). record s { reindex_interval_hours = n })
        (entered_hours-shown s.reindex_interval_hours (not (s.reindex_interval_hours == 0))
          s.excluded_paths h)

  chosen_roots-is_c :
      (drives : List DriveInfo)
      → chosen_roots drives (map is_c drives) ≡ map (λ (d : DriveInfo). d.root) (filter is_c drives)
  chosen_roots-is_c [] = refl
  chosen_roots-is_c (d ∷ drives) = elim (Bool-cases (is_c d)) [
    | inl c ↦ rw (c, chosen_roots-is_c drives) refl
    | inr other ↦ rw other (chosen_roots-is_c drives)
  ]

  pub after_first_run-init_first_run :
      (drives : List DriveInfo) (s : Settings)
      → s.first_run ≡ true
      → after_first_run wtoi64 drives (some (init_first_run drives s)) s ≡ record s {
        selected_drives = map (λ (d : DriveInfo). d.root) (filter is_c drives);
        reindex_interval_hours = 48;
        first_run = false;
      }
  unfolding after_first_run ok_first_run init_first_run entered_hours to_decimal digits_onto
  after_first_run-init_first_run drives s first =
      let val : wtoi64 (codes "48") ≡ 48 = reads 48 (omega arith) in
      let accepted = confirmed wtoi64 drives (some (init_first_run drives s)) s in
      ap (λ b. if b then accepted else s) first ∙ rw (chosen_roots-is_c drives, val)
