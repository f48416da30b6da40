-- ===== src/Ui/Dialogs/Results.antt =====
-- What a dialog leaves behind, whatever the user did in it.
use winindex.Prelude.{
  ℕ, zero, suc, ◌≡◌, refl, Bool, true, false, Option, none, some, List, [], ◌∷◌, ◌++◌, ◌==◌, any,
  All, All-append, arith, if_cases, if◌then◌else◌, WString,
}
use winindex.Config.Settings.{Settings}
use winindex.Ui.Dialogs.{
  SettingsForm, init_settings, ok_settings, on_add_location, on_remove_path, add_new, delete_at,
  delete_chosen,
}
use winindex.Ui.Ids.{idc_path_add_location, idc_path_remove}
use winindex.Ui.Dialogs.Procs.{
  on_edit, DialogEvent, command, interval_typed, unit_chosen, drives_chosen, ends_by, settings_proc,
  show_settings,
}

module _ (same : WString → WString → Bool) where
  -- No path is the same as one before it.
  abbrev pub Apart : List WString → Type 0
  Apart [] = Unit {0}
  Apart (p ∷ ps) = All (λ q. same q p ≡ false) ps × Apart ps

  Apart-snoc :
      (path : WString) (l : List WString)
      → any (same path) l ≡ false
      → Apart l
      → Apart (l ++ path ∷ [])
  Apart-snoc path [] new a = (tt, tt)
  Apart-snoc path (p ∷ ps) new a =
      let first : same path p ≡ false = ground arith in
      let rest : any (same path) ps ≡ false = ground arith in
      (All-append _ ps (path ∷ []) a.0 (first, tt), Apart-snoc path ps rest a.1)

  Apart-add_new :
      (picked : Option WString) (l : List WString) → Apart l → Apart (add_new same picked l)
  Apart-add_new none l a = a
  Apart-add_new (some path) l a =
      if_cases Apart (any (same path) l) l (l ++ path ∷ []) (λ old. a)
        (λ new. Apart-snoc path l new a)

  All-delete_at :
      (P : WString → Type 0) (i : ℕ) (l : List WString) → All P l → All P (delete_at i l)
  All-delete_at P i [] h = tt
  All-delete_at P zero (p ∷ ps) h = h.1
  All-delete_at P (suc i) (p ∷ ps) h = (h.0, All-delete_at P i ps h.1)

  Apart-delete_at : (i : ℕ) (l : List WString) → Apart l → Apart (delete_at i l)
  Apart-delete_at i [] a = tt
  Apart-delete_at zero (p ∷ ps) a = a.1
  Apart-delete_at (suc i) (p ∷ ps) a = (All-delete_at _ i ps a.0, Apart-delete_at i ps a.1)

  Apart-delete_chosen : (row : Option ℕ) (l : List WString) → Apart l → Apart (delete_chosen row l)
  Apart-delete_chosen none l a = a
  Apart-delete_chosen (some i) l a = Apart-delete_at i l a

  settings_proc-Apart :
      (e : DialogEvent) (form : SettingsForm)
      → Apart form.paths
      → Apart (settings_proc same e form).paths
  unfolding settings_proc on_add_location on_remove_path
  settings_proc-Apart (command id checked picked row) form a =
      let edited = record form {
        controls = on_edit (command id checked picked row) form.controls;
      } in
      let holds = λ (f : SettingsForm). Apart f.paths in
      if_cases holds (id == idc_path_add_location) (on_add_location same picked edited) _
        (λ adds. Apart-add_new picked form.paths a)
        (λ _.
          if_cases holds (id == idc_path_remove) (on_remove_path row edited) edited
            (λ removes. Apart-delete_chosen row form.paths a) (λ _. a))
  settings_proc-Apart (interval_typed text) form a = a
  settings_proc-Apart (unit_chosen unit) form a = a
  settings_proc-Apart (drives_chosen chosen) form a = a

  -- How the dialog leaves the settings.
  abbrev pub Left : Settings → Bool × Settings → Type 0
  Left s (true, s') =
      Apart s'.selected_drives
      × (s'.search_options ≡ s.search_options)
      × (s'.log_level ≡ s.log_level)
      × (s'.first_run ≡ s.first_run)
  Left s (false, s') = s' ≡ s

  abbrev Closes : Settings → Option (Bool × Settings) → Type 0
  Closes s none = Unit
  Closes s (some r) = Left s r

  button-Closes :
      (o : Option Bool) (rest : Option (Bool × Settings)) (s s' : Settings)
      → Closes s rest
      → Left s (true, s')
      → Closes s (elim o [ none ↦ rest | some c ↦ some (c, if c then s' else s) ])
  button-Closes none rest s s' h l = h
  button-Closes (some true) rest s s' h l = l
  button-Closes (some false) rest s s' h l = refl

  show_settings-Closes :
      (wtoi64 : WString → ℕ) (es : List DialogEvent) (form : SettingsForm) (s : Settings)
      → Apart form.paths
      → Closes s (show_settings same wtoi64 es form s)
  unfolding show_settings ok_settings
  show_settings-Closes wtoi64 [] form s a = tt
  show_settings-Closes wtoi64 (e ∷ es) form s a =
      button-Closes (ends_by e) _ s (ok_settings wtoi64 form s)
        (show_settings-Closes wtoi64 es (settings_proc same e form) s
          (settings_proc-Apart e form a))
        (a, refl, refl, refl)

  -- If no two of the selected drives compare as the same, then whatever the user does in the
  -- settings dialog until a button ends it, it leaves the settings as they were if it is
  -- cancelled, and otherwise no path is the same as one before it and the search options, the log
  -- level and the mark of the first run are unchanged.
  pub show_settings-Left :
      (wtoi64 : WString → ℕ) (es : List DialogEvent) (s : Settings) (r : Bool × Settings)
      → Apart s.selected_drives
      → show_settings same wtoi64 es (init_settings s) s ≡ some r
      → Left s r
  unfolding init_settings
  show_settings-Left wtoi64 es s r a e =
      rw e at (show_settings-Closes wtoi64 es (init_settings s) s a)
