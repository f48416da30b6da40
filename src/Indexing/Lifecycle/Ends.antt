-- ===== src/Indexing/Lifecycle/Ends.antt =====
-- src/core/indexer/Indexer.cpp: the completion event is set by every thread that runs on.
use winindex.Prelude.{
  ℕ, zero, suc, ◌+◌, ◌*◌, ◌≤◌, ◌<◌, ◌≡◌, refl, Bool, false, Option, none, some, [], ◌∷◌, arith,
  if_cases, length, replicate,
}
use winindex.Storage.Serializer.Read.{Outcome, ok}
use winindex.Indexing.Indexer.{drives_to_index, Machine, Indexer}
use winindex.Indexing.Lifecycle.{
  index_drives, add_paths, remove_under, Place, begins, writes, builds, stores_drives, adds, scans,
  saves, stores_paths, clears, watches, locks, sets, System, thread_runs, thread_step, run_thread,
  put_back, step, run,
}

module _ (sys : Machine) where
  -- Steps that are left from a place on.
  abbrev pub steps_left : Place → ℕ
  steps_left (begins index_drives) = 2 * length (drives_to_index sys) + 6
  steps_left (begins (add_paths paths)) = 4 * length paths + 6
  steps_left (begins (remove_under paths)) = length paths + 3
  steps_left (writes entries) = 2 * length (drives_to_index sys) + 5
  steps_left (builds entries) = 2 * length (drives_to_index sys) + 4
  steps_left stores_drives = 2 * length (drives_to_index sys) + 3
  steps_left (adds paths roots) = 2 * length roots + (2 * length paths + 5)
  steps_left (scans paths root roots) = 2 * length roots + (2 * length paths + 6)
  steps_left (saves paths) = 2 * length paths + 4
  steps_left (stores_paths paths) = 2 * length paths + 3
  steps_left (clears paths roots) = length roots + 2
  steps_left (watches roots) = 2 * length roots + 2
  steps_left (locks root roots) = 2 * length roots + 3
  steps_left sets = 1

  steps_left_pos : (p : Place) → 0 < steps_left p
  steps_left_pos (begins index_drives) = omega arith
  steps_left_pos (begins (add_paths paths)) = omega arith
  steps_left_pos (begins (remove_under paths)) = omega arith
  steps_left_pos (writes entries) = omega arith
  steps_left_pos (builds entries) = omega arith
  steps_left_pos stores_drives = omega arith
  steps_left_pos (adds paths roots) = omega arith
  steps_left_pos (scans paths root roots) = omega arith
  steps_left_pos (stores_paths paths) = omega arith
  steps_left_pos (saves paths) = omega arith
  steps_left_pos (clears paths roots) = omega arith
  steps_left_pos (watches roots) = omega arith
  steps_left_pos (locks root roots) = omega arith
  steps_left_pos sets = omega arith

  abbrev pub IsLess : ℕ → Option Place × Indexer → Type 0
  IsLess n (none, s) = s.is_indexing ≡ false
  IsLess n (some p, s) = steps_left p < n

  thread_step-IsLess :
      (reads : ℕ → ℕ → Bool) (p : Place) (s : Indexer)
      → IsLess (steps_left p) (thread_step sys reads p s)
  unfolding thread_step
  thread_step-IsLess reads (begins index_drives) s = omega arith
  thread_step-IsLess reads (begins (add_paths paths)) s = omega arith
  thread_step-IsLess reads (begins (remove_under paths)) s = omega arith
  thread_step-IsLess reads (writes entries) s =
      if_cases (IsLess _) s.cancelled _ _ (λ c. omega arith) (λ c. omega arith)
  thread_step-IsLess reads (adds paths []) s = omega arith
  thread_step-IsLess reads (adds paths (root ∷ roots)) s =
      if_cases (IsLess _) s.cancelled _ _ (λ c. omega arith) (λ c. omega arith)
  thread_step-IsLess reads (builds entries) s = omega arith
  thread_step-IsLess reads stores_drives s = omega arith
  thread_step-IsLess reads (scans paths root roots) s = omega arith
  thread_step-IsLess reads (stores_paths paths) s = omega arith
  thread_step-IsLess reads (saves paths) s =
      if_cases (IsLess _) s.cancelled _ _ (λ c. omega arith) (λ c. omega arith)
  thread_step-IsLess reads (clears paths []) s = omega arith
  thread_step-IsLess reads (clears paths (root ∷ roots)) s = omega arith
  thread_step-IsLess reads (watches []) s = omega arith
  thread_step-IsLess reads (watches (root ∷ roots)) s =
      if_cases (IsLess _) s.cancelled _ _ (λ c. omega arith) (λ c. omega arith)
  thread_step-IsLess reads (locks root roots) s = omega arith
  thread_step-IsLess reads sets s = refl

  -- The event is set and no thread is left.
  abbrev pub IsDone : Outcome System → Type 0
  IsDone o = (t' : System) × (o ≡ ok t') × (t'.threads ≡ []) × (t'.indexer.is_indexing ≡ false)

  pub ends_next :
      (reads : ℕ → ℕ → Bool) (n : ℕ) (next : Option Place) (s : Indexer) (bound : ℕ)
      → bound ≤ suc n
      → IsLess bound (next, s)
      → IsDone (
          run sys
            (replicate n (thread_runs 0 reads))
            (record { indexer = s; threads = put_back next [] }))
  unfolding run step run_thread
  ends_next reads zero none s bound h less = (_, refl, refl, less)
  ends_next reads (suc n) none s bound h less = ends_next reads n none s 0 (omega arith) less
  ends_next reads zero (some p) s bound h less = absurd (omega (arith, steps_left_pos p))
  ends_next reads (suc n) (some p) s bound h less =
      ends_next reads n (thread_step sys reads p s).0 (thread_step sys reads p s).1 (steps_left p)
        (omega arith) (thread_step-IsLess reads p s)

  -- From every place of every thread, as many steps of it as `steps_left` says end it and set the
  -- completion event, so that a wait for the completion returns.
  pub run-IsDone :
      (reads : ℕ → ℕ → Bool) (p : Place) (s : Indexer) (n : ℕ)
      → steps_left p ≤ n
      → IsDone
          (run sys (replicate n (thread_runs 0 reads)) (record { indexer = s; threads = p ∷ [] }))
  run-IsDone reads p s n h = ends_next reads n (some p) s (suc n) (omega arith) (omega arith)
