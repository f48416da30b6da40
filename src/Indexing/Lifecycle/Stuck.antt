-- ===== src/Indexing/Lifecycle/Stuck.antt =====
-- src/core/indexer/Indexer.cpp: what follows if a thread could not be created.
use winindex.Prelude.{
  ℕ, ◌≡◌, refl, Bool, true, false, Option, List, [], ◌∷◌, arith, if_cases, if_of_true,
}
use winindex.Storage.Serializer.Read.{Outcome, ok, ◌>>=◌}
use winindex.Indexing.Indexer.{is_root, cancel, Machine, Indexer}
use winindex.Indexing.Indexer.Threads.{start_indexing}
use winindex.Indexing.Lifecycle.{
  Job, add_paths, remove_under, Place, System, Event, thread_runs, starts, indexes, removes,
  cancels, changes, run_thread, request, after_start, step, run,
}

both : (b : Bool) → b ≡ true → b ≡ false → ⊥
both b p q = ground arith

-- A call of IndexPaths or RemovePaths whose thread could not be created.
abbrev pub HasFailed : Event → Type 0
HasFailed (indexes paths created) = created ≡ false
HasFailed (removes paths created) = created ≡ false
HasFailed e = ⊥

module _ (sys : Machine) where
  -- The event is reset, and no thread is there to set it.
  record IsStuck (file : Option (List ℕ)) (t : System) : Type 0 where
    event_reset : t.indexer.is_indexing ≡ true
    no_threads : t.threads ≡ []
    same_file : t.indexer.index_file ≡ file

  abbrev StaysStuck : Option (List ℕ) → Outcome System → Type 0
  StaysStuck file o = (t' : System) × (o ≡ ok t') × IsStuck file t'

  run_thread-none :
      (k : ℕ) (reads : ℕ → ℕ → Bool) (threads : List Place) (s : Indexer)
      → threads ≡ []
      → run_thread sys k reads threads s ≡ (threads, s)
  unfolding run_thread
  run_thread-none k reads [] s e = refl
  run_thread-none k reads (p ∷ threads) s e = cc

  step-IsStuck :
      (file : Option (List ℕ)) (e : Event) (t : System)
      → IsStuck file t
      → StaysStuck file (step sys e t)
  unfolding step request start_indexing cancel
  step-IsStuck file (thread_runs k reads) t x =
      rw (run_thread-none k reads t.threads t.indexer x.no_threads) (t, refl, x)
  step-IsStuck file (starts force file_time created) t x =
      if_of_true
        (λ (o : Outcome (Indexer × Bool)).
          StaysStuck file (o >>= λ r. ok (after_start created t.threads r)))
        t.indexer.is_indexing _ _ x.event_reset (t, refl, x)
  step-IsStuck file (indexes paths created) t x =
      if_of_true (λ r. StaysStuck file (ok r)) t.indexer.is_indexing _ _ x.event_reset (t, refl, x)
  step-IsStuck file (removes paths created) t x =
      if_of_true (λ r. StaysStuck file (ok r)) t.indexer.is_indexing _ _ x.event_reset (t, refl, x)
  step-IsStuck file cancels t x = (
    _,
    refl,
    record { event_reset = x.event_reset; no_threads = x.no_threads; same_file = x.same_file },
  )
  step-IsStuck file (changes root evt) t x =
      if_cases (λ r. StaysStuck file (ok r)) (is_root root t.indexer.watchers) _ _
        (λ watched. (
          _,
          refl,
          record {
            event_reset = x.event_reset;
            no_threads = x.no_threads;
            same_file = x.same_file;
          },
        ))
        (λ other. (t, refl, x))

  run-IsStuck :
      (file : Option (List ℕ)) (es : List Event) (t : System)
      → IsStuck file t
      → StaysStuck file (run sys es t)
  unfolding run
  run-IsStuck file [] t x = (t, refl, x)
  run-IsStuck file (e ∷ es) t x =
      let (t', same, x') = step-IsStuck file e t x in rw same (run-IsStuck file es t' x')

  request-IsStuck :
      (job : Job) (prepared : Indexer) (es : List Event) (t : System)
      → t.indexer.is_indexing ≡ false
      → t.threads ≡ []
      → prepared.is_indexing ≡ true
      → prepared.index_file ≡ t.indexer.index_file
      → StaysStuck t.indexer.index_file (run sys es (request false job prepared t))
  unfolding request
  request-IsStuck job prepared es t quiet none_there reset same =
      if_cases (λ u. StaysStuck t.indexer.index_file (run sys es u)) t.indexer.is_indexing _ _
        (λ busy. absurd (both t.indexer.is_indexing busy quiet))
        (λ _.
          run-IsStuck t.indexer.index_file es (record t { indexer = prepared })
            (record { event_reset = reset; no_threads = none_there; same_file = same }))

  -- If the thread of a call of IndexPaths or RemovePaths cannot be created while the indexer is
  -- at rest, then whatever follows, with later calls included, the completion event is never set,
  -- no thread is started and the index file stays as it is.
  pub run-stuck :
      (failed : Event) (es : List Event) (t : System)
      → HasFailed failed
      → t.indexer.is_indexing ≡ false
      → t.threads ≡ []
      → (t' : System) × (run sys (failed ∷ es) t ≡ ok t')
        × (t'.indexer.is_indexing ≡ true)
        × (t'.threads ≡ [])
        × (t'.indexer.index_file ≡ t.indexer.index_file)
  unfolding run step
  run-stuck (indexes paths false) es t f quiet none_there =
      let (t', e, x) = request-IsStuck (add_paths paths) _ es t quiet none_there refl refl in
      (t', e, x.event_reset, x.no_threads, x.same_file)
  run-stuck (removes paths false) es t f quiet none_there =
      let (t', e, x) = request-IsStuck (remove_under paths) _ es t quiet none_there refl refl in
      (t', e, x.event_reset, x.no_threads, x.same_file)
  run-stuck (indexes paths true) es t f quiet none_there = absurd (both true refl f)
  run-stuck (removes paths true) es t f quiet none_there = absurd (both true refl f)
  run-stuck (thread_runs k reads) es t f quiet none_there = absurd f
  run-stuck (starts force file_time created) es t f quiet none_there = absurd f
  run-stuck cancels es t f quiet none_there = absurd f
  run-stuck (changes root evt) es t f quiet none_there = absurd f
