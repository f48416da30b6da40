-- ===== src/Indexing/Lifecycle/Exclusive.antt =====
-- src/core/indexer/Indexer.cpp: the completion event keeps the indexer to one thread at a time.
use winindex.Prelude.{
  ℕ, zero, suc, ◌≡◌, refl, ◌∙◌, Bool, true, false, not, ◌&&◌, Option, none, some, List, [], ◌∷◌,
  arith, inl, inr, Bool-cases, if◌then◌else◌, if_cases, length, length-append, ltb, codes,
}
use winindex.Storage.Store.{IndexStore, FileTime, get_entry_count, is_index_valid}
use winindex.Storage.Serializer.Read.{Outcome, ok, rejected, fault, ◌>>=◌}
use winindex.Indexing.Indexer.{
  emit_status, emit_status_done, is_root, cancel, Machine, Indexer, start_live_monitoring,
  loading_index, scan_drive_into,
}
use winindex.Indexing.Indexer.Threads.{start_indexing, after_load}
use winindex.Indexing.Indexer.Watchers.{Distinct}
use winindex.Indexing.Lifecycle.{
  Job, index_drives, add_paths, remove_under, Place, begins, writes, builds, stores_drives, adds,
  scans, saves, stores_paths, clears, watches, locks, sets, System, Event, thread_runs, starts,
  indexes, removes, cancels, changes, thread_step, run_thread, put_back, request, after_start,
  launch, step, run,
}
use winindex.Indexing.Lifecycle.Watched.{
  add_entries_keeps, Distinct-start_watchers, thread_step-Distinct,
}
use winindex.Indexing.Lifecycle.Outcomes.{Always, Always->>=, Always-ok}

-- There is a thread exactly while the completion event is reset, and then only one; and no root is
-- watched twice.
pub record IsExclusive (t : System) : Type 0 where
  pub one_thread : length t.threads ≡ (if t.indexer.is_indexing then 1 else 0)
  pub watched_once : Distinct t.indexer.watchers

abbrev pub HasThread : Event → Type 0
HasThread (starts force file_time created) = created ≡ true
HasThread (indexes paths created) = created ≡ true
HasThread (removes paths created) = created ≡ true
HasThread e = Unit

abbrev pub HaveThreads : List Event → Type 0
HaveThreads [] = Unit
HaveThreads (e ∷ es) = HasThread e × HaveThreads es

pub two_threads : (n : ℕ) (b : Bool) → suc (suc n) ≡ (if b then 1 else 0) → ⊥
two_threads n b h = ground arith

-- Only its last step sets the event.
abbrev indexing_after : Option Place → Indexer → Bool
indexing_after none s = false
indexing_after (some place) s = s.is_indexing

-- A thread that runs is the only one.
put_back_one :
    (next : Option Place) (s s' : Indexer)
    → s.is_indexing ≡ true
    → s'.is_indexing ≡ indexing_after next s
    → length (put_back next []) ≡ (if s'.is_indexing then 1 else 0)
put_back_one none s s' h e = ground arith
put_back_one (some place) s s' h e = ground arith

no_thread : (t : System) → IsExclusive t → t.indexer.is_indexing ≡ false → length t.threads ≡ 0
no_thread t x h = x.one_thread ∙ rw h

launch-IsExclusive :
    (job : Job) (t : System)
    → length t.threads ≡ 0
    → Distinct t.indexer.watchers
    → t.indexer.is_indexing ≡ true
    → IsExclusive (launch true job t)
launch-IsExclusive job t none_yet d h = record {
  one_thread = rw h (omega (arith, length-append t.threads (begins job ∷ []), none_yet));
  watched_once = d;
}

module _ (sys : Machine) where
  thread_step-is_indexing :
      (reads : ℕ → ℕ → Bool) (p : Place) (s : Indexer)
      → (thread_step sys reads p s).1.is_indexing ≡ indexing_after (thread_step sys reads p s).0 s
  unfolding thread_step
  thread_step-is_indexing reads (begins index_drives) s = refl
  thread_step-is_indexing reads (begins (add_paths paths)) s = refl
  thread_step-is_indexing reads (begins (remove_under paths)) s = refl
  thread_step-is_indexing reads (writes entries) s = ground arith
  thread_step-is_indexing reads (adds paths []) s = refl
  thread_step-is_indexing reads (builds entries) s = refl
  thread_step-is_indexing reads stores_drives s = refl
  thread_step-is_indexing reads (adds paths (root ∷ roots)) s = ground arith
  thread_step-is_indexing reads (scans paths root roots) s =
      (add_entries_keeps sys (scan_drive_into sys (reads 0) root) s).1
  thread_step-is_indexing reads (stores_paths paths) s = refl
  thread_step-is_indexing reads (saves paths) s = ground arith
  thread_step-is_indexing reads (clears paths []) s = refl
  thread_step-is_indexing reads (clears paths (root ∷ roots)) s = refl
  thread_step-is_indexing reads (watches []) s = refl
  thread_step-is_indexing reads (watches (root ∷ roots)) s = ground arith
  thread_step-is_indexing reads (locks root roots) s = refl
  thread_step-is_indexing reads sets s = refl

  run_thread-IsExclusive :
      (k : ℕ) (reads : ℕ → ℕ → Bool) (threads : List Place) (s : Indexer)
      → IsExclusive (record { indexer = s; threads = threads })
      → let (threads', s') = run_thread sys k reads threads s in
        IsExclusive (record { indexer = s'; threads = threads' })
  unfolding run_thread
  run_thread-IsExclusive k reads [] s x = x
  run_thread-IsExclusive zero reads (place ∷ []) s x = record {
    one_thread =
        put_back_one (thread_step sys reads place s).0 s (thread_step sys reads place s).1
          (ground (arith, x.one_thread)) (thread_step-is_indexing reads place s);
    watched_once = thread_step-Distinct sys reads place s x.watched_once;
  }
  run_thread-IsExclusive zero reads (place ∷ (place' ∷ threads)) s x =
      absurd (two_threads _ _ (x.one_thread))
  run_thread-IsExclusive (suc k) reads (place ∷ []) s x = x
  run_thread-IsExclusive (suc k) reads (place ∷ (place' ∷ threads)) s x =
      absurd (two_threads _ _ (x.one_thread))

  after_load-IsExclusive :
      (seen : ℕ → Bool) (age : ℕ) (s : Indexer) (threads : List Place)
      → s.is_indexing ≡ false
      → length threads ≡ 0
      → Distinct s.watchers
      → IsExclusive (after_start true threads (after_load sys seen age s))
  unfolding emit_status emit_status_done start_live_monitoring
  after_load-IsExclusive seen age s threads quiet none_yet d =
      elim (Bool-cases (ltb 0 (get_entry_count s.store))) [
        | inl filled ↦ rw filled (record {
          one_thread = rw quiet none_yet;
          watched_once = Distinct-start_watchers seen 0 _ s.watchers d;
        })
        | inr empty ↦ rw empty (launch-IsExclusive index_drives _ none_yet d refl)
      ]

  loaded-IsExclusive :
      (o : Outcome IndexStore) (seen : ℕ → Bool) (age : ℕ) (s : Indexer) (threads : List Place)
      → s.is_indexing ≡ false
      → length threads ≡ 0
      → Distinct s.watchers
      → Always IsExclusive (
          (o >>= λ store. ok (after_load sys seen age (record s { store = store }))) >>= λ r.
          ok (after_start true threads r))
  loaded-IsExclusive (ok store) seen age s threads quiet none_yet d =
      after_load-IsExclusive seen age (record s { store = store }) threads quiet none_yet d
  loaded-IsExclusive rejected seen age s threads quiet none_yet d = tt
  loaded-IsExclusive fault seen age s threads quiet none_yet d = tt

  starts-IsExclusive :
      (force : Bool) (file_time : Option FileTime) (t : System)
      → IsExclusive t
      → Always IsExclusive (step sys (starts force file_time true) t)
  unfolding step start_indexing emit_status
  starts-IsExclusive force file_time t x =
      let after = λ (o : Outcome (Indexer × Bool)).
        Always IsExclusive (o >>= λ r. ok (after_start true t.threads r)) in
      if_cases after t.indexer.is_indexing _ _ (λ busy. x)
        λ quiet.
          let none_yet = no_thread t x quiet in
          let now = sys.system_time in
          let loading = emit_status loading_index (codes "Loading index from disk...") t.indexer in
          elim (Bool-cases
            (not force && is_index_valid sys.settings.reindex_interval_hours file_time now)) [
              | inl valid ↦
                  rw valid
                    (loaded-IsExclusive _ _ _ loading t.threads quiet none_yet x.watched_once)
              | inr old ↦ rw old (launch-IsExclusive index_drives _ none_yet x.watched_once refl)
            ]

  request-IsExclusive :
      (job : Job) (prepared : Indexer) (t : System)
      → IsExclusive t
      → prepared.watchers ≡ t.indexer.watchers
      → prepared.is_indexing ≡ true
      → IsExclusive (request true job prepared t)
  unfolding request
  request-IsExclusive job prepared t x same busy =
      if_cases IsExclusive t.indexer.is_indexing _ _ (λ b. x)
        λ quiet. launch-IsExclusive job _ (no_thread t x quiet) (rw same x.watched_once) busy

  step-IsExclusive :
      (e : Event) (t : System) → HasThread e → IsExclusive t → Always IsExclusive (step sys e t)
  unfolding step cancel
  step-IsExclusive (thread_runs k reads) t c x =
      run_thread-IsExclusive k reads t.threads t.indexer x
  step-IsExclusive (starts force file_time created) t c x =
      rw c (starts-IsExclusive force file_time t x)
  step-IsExclusive (indexes paths created) t c x =
      rw c (request-IsExclusive (add_paths paths) _ t x refl refl)
  step-IsExclusive (removes paths created) t c x =
      rw c (request-IsExclusive (remove_under paths) _ t x refl refl)
  step-IsExclusive cancels t c x = record { one_thread = x.one_thread; watched_once = tt }
  step-IsExclusive (changes root evt) t c x =
      if_cases IsExclusive (is_root root t.indexer.watchers) _ _
        (λ watched. record { one_thread = x.one_thread; watched_once = x.watched_once })
        (λ other. x)

  run-Always :
      (es : List Event) (t : System)
      → HaveThreads es
      → IsExclusive t
      → Always IsExclusive (run sys es t)
  unfolding run
  run-Always [] t c x = x
  run-Always (e ∷ es) t c x =
      Always->>= IsExclusive IsExclusive (step sys e t) (run sys es) (step-IsExclusive e t c.0 x)
        λ t' x'. run-Always es t' c.1 x'

  -- As long as every thread that is asked for is created, every sequence of steps of the threads,
  -- calls of StartIndexing, IndexPaths, RemovePaths and Cancel and changes noticed by watchers
  -- keeps that the completion event is reset exactly while there is a thread, that there is never
  -- more than one, and that no root is watched twice.
  pub run-IsExclusive :
      (es : List Event) (t : System) {t' : System}
      → HaveThreads es
      → IsExclusive t
      → run sys es t ≡ ok t'
      → IsExclusive t'
  run-IsExclusive es t c x e = Always-ok IsExclusive e (run-Always es t c x)
