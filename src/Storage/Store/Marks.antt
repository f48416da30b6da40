-- ===== src/Storage/Store/Marks.antt =====
-- The tombstone loops of `IndexStore` read as operations on the list of live entries.
use winindex.Prelude.{
  ℕ, ◌≡◌, refl, Bool, not, Option, none, some, List, [], ◌∷◌, arith, if◌then◌else◌, length, All,
  filter, WString,
}
use winindex.Storage.Pool.{EntryMeta}
use winindex.Storage.Pool.Bounds.{InBounds}
use winindex.Storage.Pool.Views.{Entry, entry_of, live_entries}
use winindex.Storage.Store.{mark_first, first_live, mark_all, count_live}

abbrev pub remove_first : (Entry → Bool) → List Entry → List Entry
remove_first hit [] = []
remove_first hit (e ∷ es) = let rest = e ∷ remove_first hit es in if hit e then es else rest

abbrev pub find_first : (Entry → Bool) → List Entry → Option Entry
find_first hit [] = none
find_first hit (e ∷ es) = let rest = find_first hit es in if hit e then some e else rest

-- A test on records and a test on entries that agree.
abbrev pub Agree : WString → (EntryMeta → Bool) → (Entry → Bool) → List EntryMeta → Type 0
Agree paths hit hit' ms = All (λ m. hit m ≡ hit' (entry_of paths m)) ms

module _ (paths : WString) (hit : EntryMeta → Bool) (hit' : Entry → Bool) where
  pub live_entries-mark_first :
      (ms : List EntryMeta)
      → Agree paths hit hit' ms
      → live_entries paths (mark_first hit ms) ≡ remove_first hit' (live_entries paths ms)
  unfolding mark_first
  live_entries-mark_first [] a = refl
  live_entries-mark_first (m ∷ ms) a = ground (arith, live_entries-mark_first ms a.1, a.0)

  pub live_entries-mark_all :
      (ms : List EntryMeta)
      → Agree paths hit hit' ms
      → live_entries paths (mark_all hit ms) ≡ filter (λ e. not (hit' e)) (live_entries paths ms)
  unfolding mark_all
  live_entries-mark_all [] a = refl
  live_entries-mark_all (m ∷ ms) a = ground (arith, live_entries-mark_all ms a.1, a.0)

  abbrev pub Found : Option EntryMeta → Option Entry → Type 0
  Found none none = Unit {0}
  Found none (some e) = ⊥
  Found (some m) none = ⊥
  Found (some m) (some e) = e ≡ entry_of paths m

  pub find_first-first_live :
      (ms : List EntryMeta)
      → Agree paths hit hit' ms
      → Found (first_live hit ms) (find_first hit' (live_entries paths ms))
  unfolding first_live
  find_first-first_live [] a = tt
  find_first-first_live (m ∷ ms) a = ground (arith, find_first-first_live ms a.1, a.0)

module _ (paths lowers : ℕ) (hit : EntryMeta → Bool) where
  pub mark_first-InBounds :
      (ms : List EntryMeta)
      → All (InBounds paths lowers) ms
      → All (InBounds paths lowers) (mark_first hit ms)
  unfolding mark_first
  mark_first-InBounds [] w = tt
  mark_first-InBounds (m ∷ ms) w = ground (arith, mark_first-InBounds ms w.1)

  pub mark_all-InBounds :
      (ms : List EntryMeta)
      → All (InBounds paths lowers) ms
      → All (InBounds paths lowers) (mark_all hit ms)
  unfolding mark_all
  mark_all-InBounds [] w = tt
  mark_all-InBounds (m ∷ ms) w = ground (arith, mark_all-InBounds ms w.1)

pub count_live-length :
    (paths : WString) (ms : List EntryMeta) → count_live ms ≡ length (live_entries paths ms)
unfolding count_live
count_live-length paths [] = refl
count_live-length paths (m ∷ ms) = ground (arith, count_live-length paths ms)
