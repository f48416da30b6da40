-- ===== src/Search/Workers/Collect.antt =====
-- What every interleaving of the workers keeps, and what the search returns once they are done.
use winindex.Prelude.{
  ℕ, zero, suc, ◌+◌, ◌≤◌, ◌≡◌, refl, ◌⊎◌, inl, inr, Bool, true, false, ◌||◌, Option, none, some,
  List, [], ◌∷◌, ◌++◌, arith, leb, length, All, append_assoc, length-append,
}
use winindex.Storage.Pool.{EntryMeta}
use winindex.Search.Workers.{
  SearchResult, Worker, SearchState, Event, runs, cancels, Matcher, matches_in, visit, work,
  work_at, search_step, search_run, locals, to_list,
}

module _ (matcher : Matcher) where
  -- A worker against all matches of its range: what it holds is a prefix of them, and the rest is
  -- what it has still to visit, unless it stopped early.
  abbrev pub Tracks : Worker → List SearchResult → Type 0
  Tracks w all_matches =
      (rest : List SearchResult) × (w.local ++ (to_list w.pending ++ rest) ≡ all_matches)
      × (((w.stopped ≡ false) × (rest ≡ matches_in matcher w.index w.todo))
          ⊎ ((w.stopped ≡ true) × (w.todo ≡ [])))

  work-Tracks :
      (stop : Bool) (w : Worker) (p : Option SearchResult) (ms : List EntryMeta)
      (all_matches : List SearchResult)
      → w.pending ≡ p
      → w.todo ≡ ms
      → Tracks w all_matches
      → Tracks (work matcher stop w p).0 all_matches
  unfolding work visit
  work-Tracks stop w (some r) ms f e d (rest, q, k) = (rest, rw append_assoc (rw e at q), k)
  work-Tracks stop w none [] f e d (rest, q, k) = rw (d, e) (rest, rw e at q, rw d at k)
  work-Tracks true w none (m ∷ ms) f e d (rest, q, k) =
      rw (d, e) (rest, rw e at q, inr (refl, refl))
  work-Tracks false w none (m ∷ ms) f e d (rest, q, inr (stopped, k)) = cc
  work-Tracks false w none (m ∷ ms) f e d (rest, q, inl (going, k)) =
      rw d (matches_in matcher (suc w.index) ms, rw (rw d at k) at (rw e at q), inl (going, refl))

  -- Stopping early has a reason: a cancel, or enough results.
  abbrev pub Excused : Type 0 → Worker → Type 0
  Excused Reason w = (w.stopped ≡ false) ⊎ Reason

  work-Excused :
      (Reason : Type 0) (stop : Bool) (w : Worker) (p : Option SearchResult) (ms : List EntryMeta)
      → w.todo ≡ ms
      → (stop ≡ true → Reason)
      → Excused Reason w
      → Excused Reason (work matcher stop w p).0
  unfolding work visit
  work-Excused Reason stop w (some r) ms d h x = x
  work-Excused Reason stop w none [] d h x = rw d x
  work-Excused Reason true w none (m ∷ ms) d h x = rw d (inr (h refl))
  work-Excused Reason false w none (m ∷ ms) d h x = rw d x

  length-work :
      (stop : Bool) (w : Worker) (p : Option SearchResult) (ms : List EntryMeta)
      → w.todo ≡ ms
      → let (w', n) = work matcher stop w p in length w'.local ≡ length w.local + n
  unfolding work visit
  length-work stop w (some r) ms d = omega (arith, length-append w.local (r ∷ []))
  length-work stop w none [] d = rw d (omega arith)
  length-work true w none (m ∷ ms) d = rw d (omega arith)
  length-work false w none (m ∷ ms) d = rw d (omega arith)

  abbrev pub TrackAll : List Worker → List (List SearchResult) → Type 0
  TrackAll [] [] = Unit {0}
  TrackAll [] (f ∷ fs) = ⊥
  TrackAll (w ∷ ws) [] = ⊥
  TrackAll (w ∷ ws) (f ∷ fs) = Tracks w f × TrackAll ws fs

  work_at-TrackAll :
      (stop : Bool) (t : ℕ) (ws : List Worker) (fs : List (List SearchResult))
      → TrackAll ws fs
      → TrackAll (work_at matcher stop t ws).0 fs
  unfolding work_at
  work_at-TrackAll stop t [] fs k = k
  work_at-TrackAll stop t (w ∷ ws) [] k = absurd k
  work_at-TrackAll stop zero (w ∷ ws) (f ∷ fs) k =
      (work-Tracks stop w w.pending w.todo f refl refl k.0, k.1)
  work_at-TrackAll stop (suc t) (w ∷ ws) (f ∷ fs) k = (k.0, work_at-TrackAll stop t ws fs k.1)

  work_at-Excused :
      (Reason : Type 0) (stop : Bool) (t : ℕ) (ws : List Worker)
      → (stop ≡ true → Reason)
      → All (Excused Reason) ws
      → All (Excused Reason) (work_at matcher stop t ws).0
  unfolding work_at
  work_at-Excused Reason stop t [] h x = x
  work_at-Excused Reason stop zero (w ∷ ws) h x =
      (work-Excused Reason stop w w.pending w.todo refl h x.0, x.1)
  work_at-Excused Reason stop (suc t) (w ∷ ws) h x = (x.0, work_at-Excused Reason stop t ws h x.1)

  length-work_at :
      (stop : Bool) (t : ℕ) (ws : List Worker)
      → let (ws', n) = work_at matcher stop t ws in length (locals ws') ≡ length (locals ws) + n
  unfolding work_at
  length-work_at stop t [] = omega arith
  length-work_at stop zero (w ∷ ws) = omega (
    arith,
    length-append (work matcher stop w w.pending).0.local (locals ws),
    length-append w.local (locals ws),
    length-work stop w w.pending w.todo refl,
  )
  length-work_at stop (suc t) (w ∷ ws) = omega (
    arith,
    length-append w.local (locals (work_at matcher stop t ws).0),
    length-append w.local (locals ws),
    length-work_at stop t ws,
  )

  -- Why a worker may stop early.
  abbrev pub Reason : ℕ → SearchState → Type 0
  Reason max_results s = (s.cancelled ≡ true) ⊎ (max_results ≤ s.collected)

  -- The invariant of the whole search, against the matches of each range.
  pub record Inv (max_results : ℕ) (fs : List (List SearchResult)) (s : SearchState) : Type 0 where
    pub tracked : TrackAll s.workers fs
    pub counted : s.collected ≡ length (locals s.workers)
    pub excused : All (Excused (Reason max_results s)) s.workers

  Excused-map :
      (P Q : Type 0) (ws : List Worker) → (P → Q) → All (Excused P) ws → All (Excused Q) ws
  Excused-map P Q [] f x = tt
  Excused-map P Q (w ∷ ws) f (inl a, x) = (inl a, Excused-map P Q ws f x)
  Excused-map P Q (w ∷ ws) f (inr b, x) = (inr (f b), Excused-map P Q ws f x)

  search_step-Inv :
      (max_results : ℕ) (fs : List (List SearchResult)) (s : SearchState) (e : Event)
      → Inv max_results fs s
      → Inv max_results fs (search_step matcher max_results s e)
  unfolding search_step
  search_step-Inv max_results fs s cancels v = record {
    tracked = v.tracked;
    counted = v.counted;
    excused = Excused-map _ _ s.workers (λ _. inl refl) v.excused;
  }
  search_step-Inv max_results fs s (runs t) v =
      let stop = s.cancelled || leb max_results s.collected in
      let why : stop ≡ true → Reason max_results s = λ h. ground arith in
      let more = (work_at matcher stop t s.workers).1 in
      record {
        tracked = work_at-TrackAll stop t s.workers fs v.tracked;
        counted = omega (arith, length-work_at stop t s.workers, v.counted);
        excused =
            Excused-map (Reason max_results s) _ (work_at matcher stop t s.workers).0
              (λ r. still max_results more s r) (work_at-Excused _ stop t s.workers why v.excused);
      }
    where
      still :
          (max_results more : ℕ) (s : SearchState)
          → Reason max_results s
          → (s.cancelled ≡ true) ⊎ (max_results ≤ s.collected + more)
      still max_results more s (inl c) = inl c
      still max_results more s (inr c) = inr (omega arith)

  pub search_run-Inv :
      (max_results : ℕ) (fs : List (List SearchResult)) (s : SearchState) (es : List Event)
      → Inv max_results fs s
      → Inv max_results fs (search_run matcher max_results s es)
  unfolding search_run
  search_run-Inv max_results fs s [] v = v
  search_run-Inv max_results fs s (e ∷ es) v =
      search_run-Inv max_results fs (search_step matcher max_results s e) es
        (search_step-Inv max_results fs s e v)
