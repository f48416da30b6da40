-- ===== src/Search/Workers/Results.antt =====
-- What the parallel search returns, whatever the number of threads and the schedule.
use mathlib.Core.Bool.{false≢true}
use winindex.Prelude.{
  ℕ, ◌≤◌, ◌<◌, ◌≡◌, refl, sym, ap, ap₂, ◌∙◌, ◌⊎◌, inl, inr, false, List, [], ◌∷◌, ◌++◌, arith,
  length, min, All, All-map, All-take, All-append, All-In, In, In-append_left, In-append_right,
  append-nil, length-append, length-take, take-all,
}
use winindex.Storage.Pool.{EntryMeta}
use winindex.Search.Workers.{
  SearchResult, Worker, SearchState, Event, Matcher, matches_in, start_search, search_run, locals,
  gather, to_list,
}
use winindex.Search.Workers.Collect.{TrackAll, Excused, Reason, search_run-Inv}
use winindex.Search.Workers.Chunks.{concat, Finished, start_search-Inv}

module _ (matcher : Matcher) where
  length-locals-le :
      (ws : List Worker) (fs : List (List SearchResult))
      → TrackAll matcher ws fs
      → length (locals ws) ≤ length (concat fs)
  length-locals-le [] [] k = omega arith
  length-locals-le [] (f ∷ fs) k = absurd k
  length-locals-le (w ∷ ws) [] k = absurd k
  length-locals-le (w ∷ ws) (f ∷ fs) ((rest, q, _), k) = omega (
    arith,
    length-append w.local (locals ws),
    length-append f (concat fs),
    length-append w.local (to_list w.pending ++ rest),
    ap length q,
    length-locals-le ws fs k,
  )

  locals-concat :
      (ws : List Worker) (fs : List (List SearchResult))
      → TrackAll matcher ws fs
      → All Finished ws
      → All (λ w. w.stopped ≡ false) ws
      → locals ws ≡ concat fs
  locals-concat [] [] k d x = refl
  locals-concat [] (f ∷ fs) k d x = absurd k
  locals-concat (w ∷ ws) [] k d x = absurd k
  locals-concat (w ∷ ws) (f ∷ fs) ((rest, q, inr (stopped, _)), k) d x =
      absurd (false≢true (sym x.0 ∙ stopped))
  locals-concat (w ∷ ws) (f ∷ fs) ((rest, q, inl (_, r)), k) d x =
      ap₂ ◌++◌ (sym (append-nil w.local) ∙ whole) (locals-concat ws fs k d.1 x.1)
    where
      none_left : rest ≡ []
      none_left = rw (d.0.0) at r

      whole : w.local ++ [] ≡ f
      whole = rw none_left at (rw (d.0.1) at q)

  All-or_some :
      (P : Type 0) (ws : List Worker)
      → All (Excused matcher P) ws
      → All (λ w. w.stopped ≡ false) ws ⊎ P
  All-or_some P [] x = inl tt
  All-or_some P (w ∷ ws) (inr p, x) = inr p
  All-or_some P (w ∷ ws) (inl a, x) = elim (All-or_some P ws x) [
    | inl rest ↦ inl (a, rest)
    | inr p ↦ inr p
  ]

  locals-In :
      (ws : List Worker) (fs : List (List SearchResult))
      → TrackAll matcher ws fs
      → All (λ r. In r (concat fs)) (locals ws)
  locals-In [] [] k = tt
  locals-In [] (f ∷ fs) k = absurd k
  locals-In (w ∷ ws) [] k = absurd k
  locals-In (w ∷ ws) (f ∷ fs) ((rest, q, _), k) =
      All-append _ w.local (locals ws)
        (All-map
          (λ r h.
            In-append_left r f (concat fs)
              (rw q at (In-append_left r w.local (to_list w.pending ++ rest) h)))
          w.local (All-In w.local []))
        (All-map (λ r h. In-append_right r f (concat fs) h) (locals ws) (locals-In ws fs k))

  module _ (hardware_concurrency max_results : ℕ) (metas : List EntryMeta) (es : List Event) where
    abbrev pub final_state : SearchState
    final_state = search_run matcher max_results (start_search hardware_concurrency metas) es

    -- At every moment of every schedule, cancelled or not, and for any matcher and number of
    -- threads, the results are at most `max_results`, and each is a match of a live entry under
    -- that entry's index.
    pub gather_sound :
        (length (gather max_results final_state) ≤ max_results)
        × All (λ r. In r (matches_in matcher 0 metas)) (gather max_results final_state)
    unfolding gather
    gather_sound =
        let (fs, all, v) = start_search-Inv matcher hardware_concurrency max_results metas in
        let w = search_run-Inv matcher max_results fs _ es v in
        (
          omega (arith, length-take max_results (locals final_state.workers)),
          All-take _ max_results (locals final_state.workers)
              (rw all at (locals-In final_state.workers fs w.tracked)),
        )

    -- For any matcher, number of threads and schedule, once every worker is done and nobody
    -- cancelled, the search returns as many results as there are matches, up to `max_results`.
    pub length-gather :
        All Finished final_state.workers
        → final_state.cancelled ≡ false
        → length (gather max_results final_state)
          ≡ min max_results (length (matches_in matcher 0 metas))
    unfolding gather
    length-gather done calm =
        let (fs, all, v) = start_search-Inv matcher hardware_concurrency max_results metas in
        let w = search_run-Inv matcher max_results fs _ es v in
        let few = length-locals-le final_state.workers fs w.tracked in
        let cut = length-take max_results (locals final_state.workers) in
        elim (All-or_some (Reason matcher max_results final_state) final_state.workers w.excused) [
          | inl going ↦
              cut
              ∙ ap (λ t. min max_results (length t))
                  (locals-concat final_state.workers fs w.tracked done going ∙ all)
          | inr (inl cancelled) ↦ absurd (false≢true (sym calm ∙ cancelled))
          | inr (inr enough) ↦ omega (arith, cut, few, ap length all, w.counted)
        ]

    -- For any matcher, number of threads and schedule, once every worker is done and nobody
    -- cancelled, and if there are fewer matches than `max_results`, the search returns all of
    -- them, in the order of their indices.
    pub gather-matches_in :
        All Finished final_state.workers
        → final_state.cancelled ≡ false
        → length (matches_in matcher 0 metas) < max_results
        → gather max_results final_state ≡ matches_in matcher 0 metas
    unfolding gather
    gather-matches_in done calm few =
        let (fs, all, v) = start_search-Inv matcher hardware_concurrency max_results metas in
        let w = search_run-Inv matcher max_results fs _ es v in
        elim (All-or_some (Reason matcher max_results final_state) final_state.workers w.excused) [
          | inl going ↦
              let e = locals-concat final_state.workers fs w.tracked done going ∙ all in
              rw e (take-all max_results (matches_in matcher 0 metas) (omega arith))
          | inr (inl cancelled) ↦ absurd (false≢true (sym calm ∙ cancelled))
          | inr (inr enough) ↦ absurd (
              omega (
                arith,
                length-locals-le final_state.workers fs w.tracked,
                ap length all,
                w.counted,
              ))
        ]
