-- ===== src/Indexing/Lifecycle/Cancels.antt =====
-- src/core/indexer/Indexer.cpp: what stays after `Cancel`, whatever the threads and the watchers do.
use winindex.Prelude.{
  ℕ, zero, suc, ◌+◌, ◌-◌, ◌≤◌, ◌≡◌, refl, ◌∙◌, ap, Bool, true, Option, none, some, List, [], ◌∷◌,
  ◌++◌, arith, if◌then◌else◌, if_cases, if_of_true, length, length-append, filter, WString,
}
use winindex.Storage.Serializer.Read.{ok}
use winindex.Indexing.Indexer.{
  is_root, stop_watchers_for_roots, cancel, Machine, Indexer, scan_drive_into,
}
use winindex.Indexing.Lifecycle.Watched.{add_entries_keeps}
use winindex.Indexing.Lifecycle.{
  index_drives, add_paths, remove_under, Place, begins, writes, builds, stores_drives, adds, scans,
  saves, stores_paths, clears, watches, locks, sets, System, Event, thread_runs, starts, indexes,
  removes, cancels, changes, thread_step, run_thread, put_back, step, run,
}
use winindex.Indexing.Lifecycle.Exclusive.{IsExclusive, two_threads}
use winindex.Indexing.Lifecycle.Outcomes.{Always, Always->>=, Always-ok}

-- Threads that have read the flag as not set and not yet taken the lock.
abbrev pub between : Place → ℕ
between (locks root roots) = 1
between p = 0

abbrev pub late_threads : List Place → ℕ
late_threads [] = 0
late_threads (p ∷ threads) = between p + late_threads threads

late_one :
    (threads : List Place) (b : Bool)
    → length threads ≡ (if b then 1 else 0)
    → late_threads threads ≤ 1
late_one [] b h = omega arith
late_one (begins job ∷ []) b h = omega arith
late_one (writes entries ∷ []) b h = omega arith
late_one (builds entries ∷ []) b h = omega arith
late_one (stores_drives ∷ []) b h = omega arith
late_one (adds paths roots ∷ []) b h = omega arith
late_one (scans paths root roots ∷ []) b h = omega arith
late_one (stores_paths paths ∷ []) b h = omega arith
late_one (saves paths ∷ []) b h = omega arith
late_one (clears paths roots ∷ []) b h = omega arith
late_one (watches roots ∷ []) b h = omega arith
late_one (locks root roots ∷ []) b h = omega arith
late_one (sets ∷ []) b h = omega arith
late_one (p ∷ (p' ∷ threads)) b h = absurd (two_threads _ b h)

-- The events other than calls that start a thread.
abbrev pub IsQuiet : Event → Type 0
IsQuiet (thread_runs k reads) = Unit
IsQuiet cancels = Unit
IsQuiet (changes root evt) = Unit
IsQuiet (starts force file_time created) = ⊥
IsQuiet (indexes paths created) = ⊥
IsQuiet (removes paths created) = ⊥

abbrev pub AreQuiet : List Event → Type 0
AreQuiet [] = Unit
AreQuiet (e ∷ es) = IsQuiet e × AreQuiet es

-- Cancelled, with at most `m` watchers that are there or still to come.
record IsCancelled (m : ℕ) (t : System) : Type 0 where
  flag_set : t.indexer.cancelled ≡ true
  few : length t.indexer.watchers + late_threads t.threads ≤ m

length-filter : (p : WString → Bool) (ws : List WString) → length (filter p ws) ≤ length ws
length-filter p [] = omega arith
length-filter p (w ∷ ws) =
    if_cases (λ l. length l ≤ suc (length ws)) (p w) (w ∷ filter p ws) (filter p ws)
      (λ kept. omega (arith, length-filter p ws)) (λ dropped. omega (arith, length-filter p ws))

-- The flag stays set, and there are at most `m` watchers with the one that the step may come to.
abbrev Stays : ℕ → Option Place × Indexer → Type 0
Stays m (next, s) = (s.cancelled ≡ true) × (length s.watchers + late_threads (put_back next []) ≤ m)

length-watched :
    (root : WString) (ws : List WString)
    → length (if is_root root ws then ws else ws ++ (root ∷ [])) ≤ length ws + 1
length-watched root ws =
    if_cases (λ l. length l ≤ length ws + 1) (is_root root ws) ws (ws ++ (root ∷ []))
      (λ old. omega arith) (λ new. omega (arith, length-append ws (root ∷ [])))

put_back_few :
    (next : Option Place) (threads : List Place) (n m m' : ℕ)
    → n + late_threads (put_back next []) ≤ m
    → m + late_threads threads ≤ m'
    → n + late_threads (put_back next threads) ≤ m'
put_back_few none threads n m m' h k = omega arith
put_back_few (some p) threads n m m' h k = omega arith

module _ (sys : Machine) where
  thread_step-Stays :
      (reads : ℕ → ℕ → Bool) (p : Place) (s : Indexer)
      → s.cancelled ≡ true
      → Stays (length s.watchers + between p) (thread_step sys reads p s)
  unfolding thread_step stop_watchers_for_roots
  thread_step-Stays reads (begins index_drives) s c = (c, omega arith)
  thread_step-Stays reads (begins (add_paths paths)) s c = (c, omega arith)
  thread_step-Stays reads (begins (remove_under paths)) s c = (c, omega arith)
  thread_step-Stays reads (writes entries) s c =
      if_of_true (Stays (length s.watchers + 0)) s.cancelled _ _ c (c, omega arith)
  thread_step-Stays reads (adds paths []) s c = (c, omega arith)
  thread_step-Stays reads (adds paths (root ∷ roots)) s c =
      if_of_true (Stays (length s.watchers + 0)) s.cancelled _ _ c (c, omega arith)
  thread_step-Stays reads (builds entries) s c = (c, omega arith)
  thread_step-Stays reads stores_drives s c = (c, omega arith)
  thread_step-Stays reads (scans paths root roots) s c =
      let (kept, same, flag) = add_entries_keeps sys (scan_drive_into sys (reads 0) root) s in
      (flag ∙ c, omega (arith, ap length kept))
  thread_step-Stays reads (stores_paths paths) s c = (c, omega arith)
  thread_step-Stays reads (saves paths) s c =
      if_of_true (Stays (length s.watchers + 0)) s.cancelled _ _ c (c, omega arith)
  thread_step-Stays reads (clears paths []) s c = (c, omega (arith, length-filter _ s.watchers))
  thread_step-Stays reads (clears paths (root ∷ roots)) s c = (c, omega arith)
  thread_step-Stays reads (watches []) s c = (c, omega arith)
  thread_step-Stays reads (watches (root ∷ roots)) s c =
      if_of_true (Stays (length s.watchers + 0)) s.cancelled _ _ c (c, omega arith)
  thread_step-Stays reads (locks root roots) s c =
      (c, omega (arith, length-watched root s.watchers))
  thread_step-Stays reads sets s c = (c, omega arith)

  run_thread-IsCancelled :
      (m k : ℕ) (reads : ℕ → ℕ → Bool) (threads : List Place) (s : Indexer)
      → IsCancelled m (record { indexer = s; threads = threads })
      → let (threads', s') = run_thread sys k reads threads s in
        IsCancelled m (record { indexer = s'; threads = threads' })
  unfolding run_thread
  run_thread-IsCancelled m k reads [] s x = x
  run_thread-IsCancelled m zero reads (p ∷ threads) s x =
      let (c, few) = thread_step-Stays reads p s x.flag_set in
      record {
        flag_set = c;
        few = put_back_few _ threads _ (length s.watchers + between p) m few (omega (arith, x.few));
      }
  run_thread-IsCancelled m (suc k) reads (p ∷ threads) s x =
      let others =
        run_thread-IsCancelled (m - between p) k reads threads s
          (record { flag_set = x.flag_set; few = omega (arith, x.few) }) in
      record { flag_set = others.flag_set; few = omega (arith, others.few, x.few) }

  step-IsCancelled :
      (m : ℕ) (e : Event) (t : System)
      → IsQuiet e
      → IsCancelled m t
      → Always (IsCancelled m) (step sys e t)
  unfolding step cancel
  step-IsCancelled m (thread_runs k reads) t q x =
      run_thread-IsCancelled m k reads t.threads t.indexer x
  step-IsCancelled m (starts force file_time created) t q x = absurd q
  step-IsCancelled m (indexes paths created) t q x = absurd q
  step-IsCancelled m (removes paths created) t q x = absurd q
  step-IsCancelled m cancels t q x = record { flag_set = refl; few = omega (arith, x.few) }
  step-IsCancelled m (changes root evt) t q x =
      if_cases (IsCancelled m) (is_root root t.indexer.watchers) _ _
        (λ watched. record { flag_set = x.flag_set; few = x.few }) (λ other. x)

  run-IsCancelled :
      (m : ℕ) (es : List Event) (t : System)
      → AreQuiet es
      → IsCancelled m t
      → Always (IsCancelled m) (run sys es t)
  unfolding run
  run-IsCancelled m [] t q x = x
  run-IsCancelled m (e ∷ es) t q x =
      Always->>= (IsCancelled m) (IsCancelled m) (step sys e t) (run sys es)
        (step-IsCancelled m e t q.0 x) λ t' x'. run-IsCancelled m es t' q.1 x'

  -- After Cancel, and as long as none of StartIndexing, IndexPaths and RemovePaths is called,
  -- whatever the threads and the watchers do, the flag stays set, and there are at most as many
  -- watchers as there were threads that had read the flag as not set and waited for the lock, of
  -- which there is at most one.
  pub run-cancels :
      (es : List Event) (t : System) {t' : System}
      → IsExclusive t
      → AreQuiet es
      → run sys (cancels ∷ es) t ≡ ok t'
      → (t'.indexer.cancelled ≡ true)
        × (length t'.indexer.watchers ≤ late_threads t.threads)
        × (late_threads t.threads ≤ 1)
  unfolding run step cancel
  run-cancels es t x q e =
      let start : IsCancelled (late_threads t.threads) (record t { indexer = cancel t.indexer }) =
        record { flag_set = refl; few = omega arith } in
      let end =
        Always-ok (IsCancelled (late_threads t.threads)) e (run-IsCancelled _ es _ q start) in
      (end.flag_set, omega (arith, end.few), late_one t.threads _ x.one_thread)
