-- ===== src/Search/Workers/Progress.antt =====
-- The parallel search comes to an end.
use winindex.Prelude.{
  ℕ, zero, suc, ◌+◌, ◌*◌, ◌≤◌, ◌<◌, ◌≡◌, refl, ◌⊎◌, inl, inr, Bool, true, false, ◌||◌, Option, none,
  some, List, [], ◌∷◌, arith, leb, length, All,
}
use winindex.Storage.Pool.{EntryMeta}
use winindex.Search.Workers.{
  SearchResult, Worker, SearchState, Event, runs, Matcher, live_match, visit, work, work_at,
  search_step, search_run, to_list,
}
use winindex.Search.Workers.Chunks.{Finished}

-- The steps that a worker can still make.
abbrev pub steps_left : Worker → ℕ
steps_left w = length w.todo * 2 + length (to_list w.pending)

abbrev pub all_left : List Worker → ℕ
all_left [] = 0
all_left (w ∷ ws) = steps_left w + all_left ws

module _ (matcher : Matcher) where
  length-to_list : (o : Option SearchResult) → length (to_list o) ≤ 1
  length-to_list none = omega arith
  length-to_list (some r) = omega arith

  work-progress :
      (stop : Bool) (w : Worker) (o : Option SearchResult) (ms : List EntryMeta)
      → w.pending ≡ o
      → w.todo ≡ ms
      → Finished w ⊎ (steps_left (work matcher stop w w.pending).0 < steps_left w)
  unfolding work visit
  work-progress stop w none [] e d = inl (d, e)
  work-progress stop w (some r) ms e d = inr (rw e (omega arith))
  work-progress true w none (m ∷ ms) e d = inr (rw (e, d) (omega arith))
  work-progress false w none (m ∷ ms) e d =
      inr (rw (e, d) (omega (arith, length-to_list (live_match matcher w.index m))))

  -- Either every worker is done, or one of them can make a step.
  work_at-progress :
      (stop : Bool) (ws : List Worker)
      → All Finished ws ⊎ ((t : ℕ) × (all_left (work_at matcher stop t ws).0 < all_left ws))
  unfolding work_at
  work_at-progress stop [] = inl tt
  work_at-progress stop (w ∷ ws) = elim (work-progress stop w w.pending w.todo refl refl) [
    | inr less ↦ inr (0, omega arith)
    | inl done ↦ elim (work_at-progress stop ws) [
      | inl rest ↦ inl (done, rest)
      | inr (t, less) ↦ inr (suc t, omega arith)
    ]
  ]

  finishes :
      (fuel max_results : ℕ) (s : SearchState)
      → all_left s.workers ≤ fuel
      → (es : List Event) × (length es ≤ fuel)
        × All Finished (search_run matcher max_results s es).workers
        × ((search_run matcher max_results s es).cancelled ≡ s.cancelled)
  unfolding search_run search_step
  finishes zero max_results s h =
      elim (work_at-progress (s.cancelled || leb max_results s.collected) s.workers) [
        | inl done ↦ ([], omega arith, done, refl)
        | inr (t, less) ↦ absurd (omega arith)
      ]
  finishes (suc n) max_results s h =
      elim (work_at-progress (s.cancelled || leb max_results s.collected) s.workers) [
        | inl done ↦ ([], omega arith, done, refl)
        | inr (t, less) ↦
            let (es, few, done, same) =
              finishes n max_results (search_step matcher max_results s (runs t)) (omega arith) in
            (runs t ∷ es, omega arith, done, same)
      ]

  -- From every state of a search, for any matcher and limit, there is a schedule of at most two
  -- steps for each entry still to visit and one for each pending match, after which every worker
  -- is done and the cancel flag is as it was.
  pub schedule_finishes :
      (max_results : ℕ) (s : SearchState)
      → (es : List Event) × (length es ≤ all_left s.workers)
        × All Finished (search_run matcher max_results s es).workers
        × ((search_run matcher max_results s es).cancelled ≡ s.cancelled)
  schedule_finishes max_results s = finishes (all_left s.workers) max_results s (omega arith)
