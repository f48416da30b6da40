-- ===== src/Search/Workers.antt =====
-- src/core/search/SearchEngine.cpp: the parallel loop that `SearchRegex` and `SearchSubstring` share.
-- A schedule says which worker makes its next step, and when the caller cancels; one step is what a
-- worker does between two accesses of the shared counter. The counter is at most the number of
-- entries, which fits its 32 bits.
pub mod Collect
pub mod Chunks
pub mod Results
pub mod Progress
use winindex.Prelude.{
  ℕ, zero, suc, ◌+◌, ◌-◌, ◌*◌, ◌/◌, Bool, true, false, ◌||◌, Option, none, some, List, [], ◌∷◌,
  ◌++◌, leb, if◌then◌else◌, length, take, drop, min,
}
use winindex.Storage.Pool.{EntryMeta}

pub record SearchResult : Type 0 where
  pub entry_index : ℕ
  pub match_start : ℕ
  pub match_len : ℕ

-- One `std::async` body. `pending` is a match that is still to be pushed and counted, `stopped` a
-- loop left by one of its two breaks.
pub record Worker : Type 0 where
  pub index : ℕ
  pub todo : List EntryMeta
  pub pending : Option SearchResult
  pub local : List SearchResult
  pub stopped : Bool

pub record SearchState : Type 0 where
  pub workers : List Worker
  pub collected : ℕ
  pub cancelled : Bool

pub data Event : Type 0 where
  runs : ℕ → Event
  cancels : Event

-- What the loop body finds at an entry, without the deleted ones.
abbrev pub Matcher : Type 0
Matcher = ℕ → EntryMeta → Option SearchResult

abbrev pub to_list : Option SearchResult → List SearchResult
to_list none = []
to_list (some r) = r ∷ []

module _ (matcher : Matcher) where
  abbrev pub live_match : ℕ → EntryMeta → Option SearchResult
  live_match i m = if m.deleted then none else matcher i m

  -- All matches of the records that are not deleted, from an index on, in order.
  abbrev pub matches_in : ℕ → List EntryMeta → List SearchResult
  matches_in i [] = []
  matches_in i (m ∷ ms) = to_list (if m.deleted then none else matcher i m) ++ matches_in (suc i) ms

  -- One iteration up to the push: the two breaks, then the match.
  unfoldable pub visit : Bool → Worker → List EntryMeta → Worker
  visit stop w [] = w
  visit stop w (m ∷ ms) =
      if stop
      then record w { todo = []; stopped = true }
      else record w { index = suc w.index; todo = ms; pending = live_match w.index m }

  -- A worker's step: `push_back` and `fetch_add` if a match is pending, else the next iteration.
  unfoldable pub work : Bool → Worker → Option SearchResult → Worker × ℕ
  unfolding visit
  work stop w none = (visit stop w w.todo, 0)
  work stop w (some r) = (record w { pending = none; local = w.local ++ (r ∷ []) }, 1)

  unfoldable pub work_at : Bool → ℕ → List Worker → List Worker × ℕ
  unfolding work
  work_at stop t [] = ([], 0)
  work_at stop zero (w ∷ ws) = let (w', n) = work stop w w.pending in (w' ∷ ws, n)
  work_at stop (suc t) (w ∷ ws) = let (ws', n) = work_at stop t ws in (w ∷ ws', n)

  unfoldable pub search_step : ℕ → SearchState → Event → SearchState
  unfolding work_at
  search_step max_results s (runs t) =
      let (ws, n) = work_at (s.cancelled || leb max_results s.collected) t s.workers in
      record s { workers = ws; collected = s.collected + n }
  search_step max_results s cancels = record s { cancelled = true }

  unfoldable pub search_run : ℕ → SearchState → List Event → SearchState
  unfolding search_step
  search_run max_results s [] = s
  search_run max_results s (e ∷ es) = search_run max_results (search_step max_results s e) es

-- The ranges of the workers `t`, `t + 1`, …: `chunk_size` entries each, up to the last entry.
unfoldable pub make_workers : ℕ → ℕ → ℕ → List EntryMeta → List Worker
make_workers zero chunk_size t metas = []
make_workers (suc n) chunk_size t metas =
    let begin = t * chunk_size in
    let w : Worker = record {
      index = begin;
      todo = take (min (begin + chunk_size) (length metas) - begin) (drop begin metas);
      pending = none;
      local = [];
      stopped = false;
    } in
    let rest = w ∷ make_workers n chunk_size (suc t) metas in
    if leb (length metas) begin then [] else rest

-- `std::max(1u, std::thread::hardware_concurrency())`
abbrev pub num_threads : ℕ → ℕ
num_threads zero = 1
num_threads (suc n) = suc n

unfoldable pub start_search : ℕ → List EntryMeta → SearchState
unfolding make_workers
start_search hardware_concurrency metas =
    let n = num_threads hardware_concurrency in
    record {
      workers = make_workers n ((length metas + n - 1) / n) 0 metas;
      collected = 0;
      cancelled = false;
    }

abbrev pub locals : List Worker → List SearchResult
locals [] = []
locals (w ∷ ws) = w.local ++ locals ws

-- The results in the order of the workers, cut off at `max_results`.
unfoldable pub gather : ℕ → SearchState → List SearchResult
gather max_results s = take max_results (locals s.workers)
