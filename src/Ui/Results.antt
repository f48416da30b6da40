-- ===== src/Ui/Results.antt =====
-- src/ui/MainWindow.h, MainWindow.cpp: the results of a search as the list shows them, and
-- their order. std::sort is an argument.
pub mod Order
pub mod Placed
pub mod Display
pub mod Found
use winindex.Prelude.{
  ℕ, ◌-◌, ◌%◌, ◌^◌, ◌==◌, Bool, true, false, Option, none, some, List, [], ◌∷◌, ltb, if◌then◌else◌,
  WString, get_elem?, slice?, ◌+◌,
}
use winindex.Storage.Pool.{EntryMeta, IndexPool, path_view, size_of_diff}
use winindex.Search.Workers.{SearchResult}
use winindex.Search.Tokens.{wstr_lt}

pub record DisplayEntry : Type 0 where
  pub name : WString
  pub path : WString
  pub size : ℕ
  pub last_modified : ℕ
  pub attributes : ℕ
  pub match_start : ℕ
  pub match_len : ℕ

-- The sign of an int that compares.
pub data Sign : Type 0 where
  negative zero positive : Sign

abbrev pub sign_of : Bool → Bool → Sign
sign_of less greater = if less then negative else if greater then positive else zero

-- `a.compare(b)` of two strings.
unfoldable pub compare_wstr : WString → WString → Sign
compare_wstr a b = sign_of (wstr_lt a b) (wstr_lt b a)

abbrev pub is_negative : Sign → Bool
is_negative negative = true
is_negative _ = false

abbrev pub is_positive : Sign → Bool
is_positive positive = true
is_positive _ = false

-- The switch over the column.
unfoldable pub compare_by : ℕ → DisplayEntry → DisplayEntry → Sign
unfolding compare_wstr
compare_by col a b =
    if col == 0
    then compare_wstr a.name b.name
    else if col == 1
    then compare_wstr a.path b.path
    else if col == 2
    then sign_of (ltb a.size b.size) (ltb b.size a.size)
    else if col == 3
    then sign_of (ltb a.last_modified b.last_modified) (ltb b.last_modified a.last_modified)
    else zero

-- The comparison that std::sort is given.
unfoldable pub entry_less : ℕ → Bool → DisplayEntry → DisplayEntry → Bool
unfolding compare_by
entry_less col desc a b =
    if desc then is_positive (compare_by col a b) else is_negative (compare_by col a b)

abbrev pub Sorter : Type 0
Sorter = (DisplayEntry → DisplayEntry → Bool) → List DisplayEntry → List DisplayEntry

-- `none` is the column -1, by which nothing is sorted.
unfoldable pub apply_current_sort : Sorter → Option ℕ → Bool → List DisplayEntry → List DisplayEntry
unfolding entry_less
apply_current_sort sort none desc results = results
apply_current_sort sort (some col) desc [] = []
apply_current_sort sort (some col) desc (e ∷ es) = sort (entry_less col desc) (e ∷ es)

-- `static_cast<uint16_t>(m.pathLen - m.nameStart)`
abbrev pub name_len : EntryMeta → ℕ
name_len m = (m.path_len + 2 ^ 16 - m.name_start) % 2 ^ 16

abbrev pub display_views :
    EntryMeta → SearchResult → Option WString → Option WString → Option DisplayEntry
display_views m r (some name) (some path) = some (record {
  name = name;
  path = path;
  size = m.size;
  last_modified = m.last_modified;
  attributes = m.attributes;
  match_start = r.match_start;
  match_len = r.match_len;
})
display_views m r (some name) none = none
display_views m r none path = none

abbrev pub display_meta : IndexPool → SearchResult → Option EntryMeta → Option DisplayEntry
display_meta p r none = none
display_meta p r (some m) =
    display_views m r (slice? p.path_pool (m.path_offset + m.name_start) (name_len m))
      (slice? p.path_pool m.path_offset m.path_len)

-- One round of the loop over the results; `none` is a read outside the vectors, which is undefined
-- in the source.
unfoldable pub display_entry : IndexPool → SearchResult → Option DisplayEntry
display_entry p r = display_meta p r (get_elem? p.metas r.entry_index)

abbrev pub push : Option DisplayEntry → Option (List DisplayEntry) → Option (List DisplayEntry)
push (some e) (some es) = some (e ∷ es)
push (some e) none = none
push none rest = none

unfoldable pub display_results : IndexPool → List SearchResult → Option (List DisplayEntry)
unfolding display_entry
display_results p [] = some []
display_results p (r ∷ rs) = push (display_entry p r) (display_results p rs)
