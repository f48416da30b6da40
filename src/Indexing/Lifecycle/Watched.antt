-- ===== src/Indexing/Lifecycle/Watched.antt =====
-- src/core/indexer/Indexer.cpp: no step of a thread comes to watch a root twice.
use winindex.Prelude.{
  ℕ, ◌+◌, ◌≡◌, refl, Bool, true, false, Option, List, [], ◌∷◌, ◌++◌, arith, inl, inr, Bool-cases,
  if◌then◌else◌, filter, WString,
}
use winindex.Storage.Pool.{FileEntry}
use winindex.Indexing.Indexer.{
  stop_watchers_for_roots, start_watchers, is_root, Machine, Indexer, scan_drive_into,
}
use winindex.Indexing.Indexer.Threads.{add_entries}
use winindex.Indexing.Indexer.Watchers.{Distinct, Distinct-snoc}
use winindex.Indexing.Lifecycle.{
  index_drives, add_paths, remove_under, Place, begins, writes, builds, stores_drives, adds, scans,
  saves, stores_paths, clears, watches, locks, sets, thread_step,
}

is_root-filter :
    (p : WString → Bool) (w : WString) (ws : List WString)
    → is_root w ws ≡ false
    → is_root w (filter p ws) ≡ false
is_root-filter p w [] h = refl
is_root-filter p w (x ∷ ws) h = ground (arith, is_root-filter p w ws)

Distinct-filter : (p : WString → Bool) (ws : List WString) → Distinct ws → Distinct (filter p ws)
Distinct-filter p [] d = tt
Distinct-filter p (w ∷ ws) d = elim (Bool-cases (p w)) [
  | inl kept ↦ rw kept (is_root-filter p w ws d.0, Distinct-filter p ws d.1)
  | inr dropped ↦ rw dropped (Distinct-filter p ws d.1)
]

pub Distinct-watched :
    (root : WString) (ws : List WString)
    → Distinct ws
    → Distinct (if is_root root ws then ws else ws ++ (root ∷ []))
Distinct-watched root ws d = elim (Bool-cases (is_root root ws)) [
  | inl old ↦ rw old d
  | inr new ↦ rw new (Distinct-snoc root ws new d)
]

pub Distinct-start_watchers :
    (seen : ℕ → Bool) (k : ℕ) (roots ws : List WString)
    → Distinct ws
    → Distinct (start_watchers seen k roots ws)
unfolding start_watchers
Distinct-start_watchers seen k [] ws d = d
Distinct-start_watchers seen k (root ∷ roots) ws d = elim (Bool-cases (seen k)) [
  | inl stop ↦ rw stop d
  | inr go ↦ rw go (
      Distinct-start_watchers seen (k + 1) roots (if is_root root ws then ws else ws ++ (root ∷ []))
        (Distinct-watched root ws d))
]

either-watchers :
    (P : List WString → Type 0) (b : Bool) (x y : Option Place × Indexer)
    → P x.1.watchers
    → P y.1.watchers
    → P (if b then x else y).1.watchers
either-watchers P true x y p q = p
either-watchers P false x y p q = q

module _ (sys : Machine) where
  -- Adding entries changes the store and the count alone.
  pub add_entries_keeps :
      (es : List FileEntry) (s : Indexer)
      → ((add_entries sys es s).watchers ≡ s.watchers)
        × ((add_entries sys es s).is_indexing ≡ s.is_indexing)
        × ((add_entries sys es s).cancelled ≡ s.cancelled)
  add_entries_keeps [] s = (refl, refl, refl)
  add_entries_keeps (e ∷ es) s = add_entries_keeps es _

  pub thread_step-Distinct :
      (reads : ℕ → ℕ → Bool) (p : Place) (s : Indexer)
      → Distinct s.watchers
      → Distinct (thread_step sys reads p s).1.watchers
  unfolding thread_step stop_watchers_for_roots
  thread_step-Distinct reads (begins index_drives) s d = d
  thread_step-Distinct reads (begins (add_paths paths)) s d = d
  thread_step-Distinct reads (begins (remove_under paths)) s d = d
  thread_step-Distinct reads (writes entries) s d = either-watchers Distinct s.cancelled _ _ d d
  thread_step-Distinct reads (adds paths []) s d = d
  thread_step-Distinct reads (adds paths (root ∷ roots)) s d =
      either-watchers Distinct s.cancelled _ _ d d
  thread_step-Distinct reads (scans paths root roots) s d =
      rw (add_entries_keeps (scan_drive_into sys (reads 0) root) s).0 d
  thread_step-Distinct reads (builds entries) s d = d
  thread_step-Distinct reads stores_drives s d = d
  thread_step-Distinct reads (stores_paths paths) s d = d
  thread_step-Distinct reads (saves paths) s d = either-watchers Distinct s.cancelled _ _ d d
  thread_step-Distinct reads (clears paths []) s d = Distinct-filter _ s.watchers d
  thread_step-Distinct reads (clears paths (root ∷ roots)) s d = d
  thread_step-Distinct reads (watches []) s d = d
  thread_step-Distinct reads (watches (root ∷ roots)) s d =
      either-watchers Distinct s.cancelled _ _ d d
  thread_step-Distinct reads (locks root roots) s d = Distinct-watched root s.watchers d
  thread_step-Distinct reads sets s d = d
