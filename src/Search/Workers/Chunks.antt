-- ===== src/Search/Workers/Chunks.antt =====
-- The ranges of the workers cover the entries once and in order, so the search as a whole returns
-- what one pass over the entries would.
use winindex.Prelude.{
  ℕ, zero, suc, ◌+◌, ◌-◌, ◌*◌, ◌/◌, ◌≤◌, ◌<◌, ◌≡◌, refl, sym, ◌∙◌, inl, inr, false, none, List, [],
  ◌∷◌, ◌++◌, arith, leb, leb→le, length, take, drop, min, All, All-map, append_assoc, length-drop,
  drop-all, take-all, drop-add, Bool-cases,
}
use winindex.Storage.Pool.{EntryMeta}
use native.Mathlib.Nat.{add-zero, div-add-mod, mod-lt}
use winindex.Search.Workers.{
  SearchResult, Worker, Matcher, live_match, matches_in, make_workers, start_search, locals,
  to_list,
}
use winindex.Search.Workers.Collect.{TrackAll, Inv}

abbrev pub concat : List (List SearchResult) → List SearchResult
concat [] = []
concat (f ∷ fs) = f ++ concat fs

-- A worker whose loop has ended.
abbrev pub Finished : Worker → Type 0
Finished w = (w.todo ≡ []) × (w.pending ≡ none)

module _ (matcher : Matcher) where
  abbrev ranges : List Worker → List (List SearchResult)
  ranges [] = []
  ranges (w ∷ ws) = matches_in matcher w.index w.todo ∷ ranges ws

  matches_in-split :
      (k i : ℕ) (ms : List EntryMeta)
      → matches_in matcher i ms
        ≡ matches_in matcher i (take k ms) ++ matches_in matcher (i + k) (drop k ms)
  matches_in-split zero i ms = rw add-zero
  matches_in-split (suc k) i [] = refl
  matches_in-split (suc k) i (m ∷ ms) =
      let e : suc i + k ≡ i + suc k = omega arith in
      rw (matches_in-split k (suc i) ms, e)
        (sym (
          append_assoc (to_list (live_match matcher i m)) (matches_in matcher (suc i) (take k ms))
            (matches_in matcher (i + suc k) (drop k ms))))

  take_range :
      (size begin : ℕ) (metas : List EntryMeta)
      → begin < length metas
      → take (min (begin + size) (length metas) - begin) (drop begin metas)
        ≡ take size (drop begin metas)
  take_range size begin metas h = elim (Bool-cases (leb (begin + size) (length metas))) [
    | inl fits ↦
        let e : min (begin + size) (length metas) - begin ≡ size = omega (arith, leb→le _ _ fits) in
        rw e
    | inr over ↦
        let far : length metas < begin + size = ground arith in
        take-all _ (drop begin metas) (omega (arith, length-drop begin metas))
        ∙ sym (take-all size (drop begin metas) (omega (arith, length-drop begin metas)))
  ]

  ranges-make_workers :
      (n size t : ℕ) (metas : List EntryMeta)
      → length metas ≤ (t + n) * size
      → concat (ranges (make_workers n size t metas))
        ≡ matches_in matcher (t * size) (drop (t * size) metas)
  unfolding make_workers
  ranges-make_workers zero size t metas h = rw (drop-all (t * size) metas (omega arith))
  ranges-make_workers (suc n) size t metas h = elim (Bool-cases (leb (length metas) (t * size))) [
    | inl over ↦ rw (over, drop-all (t * size) metas (leb→le _ _ over))
    | inr more ↦
        let inside : t * size < length metas = ground arith in
        let next : suc t * size ≡ t * size + size = omega arith in
        rw more (
          rw
            (
              take_range size (t * size) metas inside,
              ranges-make_workers n size (suc t) metas (omega arith),
              next,
              drop-add (t * size) size metas,
            )
            (sym (matches_in-split size (t * size) (drop (t * size) metas))))
  ]

  make_workers-TrackAll :
      (n size t : ℕ) (metas : List EntryMeta)
      → TrackAll matcher (make_workers n size t metas) (ranges (make_workers n size t metas))
        × (locals (make_workers n size t metas) ≡ [])
        × All (λ w. w.stopped ≡ false) (make_workers n size t metas)
  unfolding make_workers
  make_workers-TrackAll zero size t metas = (tt, refl, tt)
  make_workers-TrackAll (suc n) size t metas = elim (Bool-cases (leb (length metas) (t * size))) [
    | inl over ↦ rw over (tt, refl, tt)
    | inr more ↦
        let (k, l, x) = make_workers-TrackAll n size (suc t) metas in
        rw more (((_, refl, inl (refl, refl)), k), l, (refl, x))
  ]

  -- The ranges cover all entries: `(count + n - 1) / n * n` is at least `count`.
  chunks_cover : (count n : ℕ) → count ≤ (0 + suc n) * ((count + suc n - 1) / suc n)
  chunks_cover count n =
      let q = (count + suc n - 1) / suc n in
      omega (
        arith,
        div-add-mod (count + suc n - 1) (suc n),
        mod-lt (count + suc n - 1) {m = suc n} (omega arith),
      )

  started :
      (n max_results : ℕ) (metas : List EntryMeta)
      → (fs : List (List SearchResult)) × (concat fs ≡ matches_in matcher 0 metas)
        × Inv matcher max_results fs (record {
          workers = make_workers (suc n) ((length metas + suc n - 1) / suc n) 0 metas;
          collected = 0;
          cancelled = false;
        })
  started n max_results metas =
      let size = (length metas + suc n - 1) / suc n in
      let (k, l, x) = make_workers-TrackAll (suc n) size 0 metas in
      let z : 0 * size ≡ 0 = omega arith in
      (
        ranges (make_workers (suc n) size 0 metas),
        rw z at (ranges-make_workers (suc n) size 0 metas (chunks_cover (length metas) n)),
        record {
          tracked = k;
          counted = rw l;
          excused = All-map (λ w h. inl h) (make_workers (suc n) size 0 metas) x;
        },
      )

  pub start_search-Inv :
      (hardware_concurrency max_results : ℕ) (metas : List EntryMeta)
      → (fs : List (List SearchResult)) × (concat fs ≡ matches_in matcher 0 metas)
        × Inv matcher max_results fs (start_search hardware_concurrency metas)
  unfolding start_search
  start_search-Inv zero max_results metas = started 0 max_results metas
  start_search-Inv (suc n) max_results metas = started n max_results metas
