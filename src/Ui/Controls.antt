-- ===== src/Ui/Controls.antt =====
-- src/ui/MainWindow.cpp: the window as `InitControls` leaves it, and the layout of `OnSize`.
use winindex.Prelude.{
  ℕ, ◌+◌, ◌-◌, ◌%◌, ◌^◌, ◌≤◌, ◌<◌, ◌≡◌, Bool, true, false, none, List, [], ◌∷◌, arith, WString,
  codes, map,
}
use winindex.Search.Engine.{SearchOptions}
use winindex.Ui.Window.{Window, on_search_bar}

pub record Column : Type 0 where
  pub title : WString
  pub width : ℕ
  pub right_aligned : Bool

unfoldable pub columns : List Column
columns =
    (record { title = codes "Name"; width = 250; right_aligned = false })
    ∷ ((record { title = codes "Path"; width = 350; right_aligned = false })
        ∷ ((record { title = codes "Size"; width = 90; right_aligned = true })
            ∷ ((record { title = codes "Date Modified"; width = 140; right_aligned = false })
                ∷ [])))

-- An empty search bar and list, a header without arrows, and the options of the settings.
unfoldable pub init_controls : SearchOptions → Window
unfolding columns
init_controls opts = record {
  text = [];
  is_enabled = true;
  focus = on_search_bar;
  has_timer = false;
  current_results = [];
  total_matches = 0;
  item_count = 0;
  selection = [];
  sort_column = none;
  sort_descending = false;
  header = map (λ (c : Column). none) columns;
  status_text = codes "Ready.";
  logged = [];
  options = opts;
  saved_options = opts;
  check_marks = [];
  running = none;
  posted = [];
}

-- The place of a control; an int is its 32-bit pattern.
pub record Rect : Type 0 where
  pub left : ℕ
  pub top : ℕ
  pub width : ℕ
  pub height : ℕ

abbrev int_sub : ℕ → ℕ → ℕ
int_sub a b = (a + 2 ^ 32 - b) % 2 ^ 32

abbrev k_search_bar_height : ℕ
k_search_bar_height = 32

abbrev k_search_bar_padding : ℕ
k_search_bar_padding = 4

abbrev list_top : ℕ
list_top = k_search_bar_height + k_search_bar_padding + k_search_bar_padding

-- The search bar and the list, by the size of the client area and the height of the status bar.
unfoldable pub on_size : ℕ → ℕ → ℕ → Rect × Rect
on_size cx cy sb_height = (
  record {
    left = k_search_bar_padding;
    top = k_search_bar_padding;
    width = int_sub cx (k_search_bar_padding + k_search_bar_padding);
    height = k_search_bar_height;
  },
  record { left = 0; top = list_top; width = cx; height = int_sub (int_sub cy list_top) sb_height },
)

-- If the window is large enough, the search bar keeps its padding on every side, and the list fills
-- what is between it and the status bar.
pub on_size_tiles :
    (cx cy sb_height : ℕ)
    → 8 ≤ cx
    → cx < 2 ^ 16
    → 40 + sb_height ≤ cy
    → cy < 2 ^ 16
    → let (bar, items) = on_size cx cy sb_height in
      (bar.left + bar.width + 4 ≡ cx)
      × (bar.top + bar.height + 4 ≡ items.top)
      × (items.top + items.height + sb_height ≡ cy)
unfolding on_size
on_size_tiles cx cy sb_height wide h tall k = (omega arith, omega arith, omega arith)
