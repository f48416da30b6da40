-- ===== src/Ui/Commands/Options.antt =====
-- The options of the search menu and their check marks.
use winindex.Prelude.{
  ap, sym, ◌∙◌, WString, Option, some, none, ℕ, ◌≡◌, refl, Bool, false, not, List, [], ◌∷◌, ◌==◌,
  map, if◌then◌else◌, ltb, length, Bool-cases, inl, inr,
}
use winindex.Search.Engine.{SearchOptions}
use winindex.Ui.Results.{DisplayEntry}
use winindex.Ui.Window.{
  Window, SearchOption, regex, case, whole, match, diacritics, toggled, toggle_option,
  menu_checkmarks, update_menu_checkmarks, query_of, trigger_search, execute_search, post,
}
use winindex.Ui.Commands.{Surroundings, searches, on_command}

abbrev pub id_of : SearchOption → ℕ
id_of regex = 201
id_of case = 202
id_of whole = 203
id_of match = 204
id_of diacritics = 205

abbrev pub turned : ℕ → ℕ × Bool → ℕ × Bool
turned id (i, b) = (i, if i == id then not b else b)

-- The marks that the five options have.
abbrev pub marks_of : SearchOptions → List (ℕ × Bool)
marks_of opts =
    (201, opts.use_regex)
    ∷ ((202, opts.case_sensitive)
        ∷ ((203, opts.whole_word)
            ∷ ((204, opts.match_path) ∷ ((205, opts.ignore_diacritics) ∷ []))))

-- The options as they are after a search is triggered, and what is searched for.
record Searches (opts : SearchOptions) (text : WString) (w : Window) : Type 0 where
  marks_are : w.check_marks ≡ marks_of opts
  options_are : w.options ≡ opts
  saved_are : w.saved_options ≡ opts
  running_is : ltb (length (query_of text)) 2 ≡ false → w.running ≡ some (query_of text, opts)

post-options :
    (results : List DisplayEntry) (r : Option (WString × SearchOptions)) (w : Window)
    → ((post results r w).options ≡ w.options)
      × ((post results r w).saved_options ≡ w.saved_options)
      × ((post results r w).check_marks ≡ w.check_marks)
post-options results none w = (refl, refl, refl)
post-options results (some q) w = (refl, refl, refl)

trigger_search-Searches :
    (late : List DisplayEntry) (opts : SearchOptions) (w : Window)
    → w.options ≡ opts
    → w.saved_options ≡ opts
    → w.check_marks ≡ marks_of opts
    → Searches opts w.text (trigger_search late w)
unfolding trigger_search execute_search
trigger_search-Searches late opts w p q m = elim (Bool-cases (ltb (length (query_of w.text)) 2)) [
  | inl short ↦
      rw short (record { marks_are = m; options_are = p; saved_are = q; running_is = λ h. cc })
  | inr long ↦
      let (o, s, k) = post-options late w.running w in
      rw long (record {
        marks_are = k ∙ m;
        options_are = o ∙ p;
        saved_are = s ∙ q;
        running_is = λ h. ap (λ (t : SearchOptions). some (query_of w.text, t)) p;
      })
]

on_command-toggle_option :
    (at : Surroundings) (o : SearchOption) (w : Window)
    → on_command at (id_of o) w ≡ searches (toggle_option at.late o w)
unfolding on_command
on_command-toggle_option at regex w = refl
on_command-toggle_option at case w = refl
on_command-toggle_option at whole w = refl
on_command-toggle_option at match w = refl
on_command-toggle_option at diacritics w = refl

turned-marks_of :
    (o : SearchOption) (opts : SearchOptions)
    → marks_of (toggled o opts) ≡ map (turned (id_of o)) (marks_of opts)
turned-marks_of regex opts = refl
turned-marks_of case opts = refl
turned-marks_of whole opts = refl
turned-marks_of match opts = refl
turned-marks_of diacritics opts = refl

-- Each of the five commands of the search menu turns the check mark of its own item, by the ids
-- 201 to 205, and no other; the marks are then those of the new options, which are saved, and if
-- the text has two characters or more, the search thread is at work on the text with the new
-- options.
pub on_command-checks :
    (at : Surroundings) (o : SearchOption) (w : Window)
    → (w' : Window) × (on_command at (id_of o) w ≡ searches w')
      × (w'.check_marks ≡ map (turned (id_of o)) (marks_of w.options))
      × (marks_of w'.options ≡ w'.check_marks)
      × (w'.saved_options ≡ w'.options)
      × (ltb (length (query_of w.text)) 2 ≡ false → w'.running ≡ some (query_of w.text, w'.options))
unfolding toggle_option update_menu_checkmarks menu_checkmarks
on_command-checks at o w =
    let opts = toggled o w.options in
    let s : Searches opts w.text (toggle_option at.late o w) =
      trigger_search-Searches at.late opts _ refl refl refl in
    (
      toggle_option at.late o w,
      on_command-toggle_option at o w,
      s.marks_are ∙ turned-marks_of o w.options,
      ap marks_of s.options_are ∙ sym s.marks_are,
      s.saved_are ∙ sym s.options_are,
      λ long. rw s.options_are (s.running_is long),
    )
