-- ===== src/Indexing/Lifecycle/Whole.antt =====
-- src/core/indexer/Indexer.cpp: the indexer from its constructor to its destructor.
use winindex.Prelude.{
  ℕ, ◌+◌, ◌≤◌, ◌≡◌, refl, Bool, true, false, Option, none, List, [], ◌∷◌, arith, if◌then◌else◌,
  length, replicate,
}
use winindex.Storage.Store.{IndexStore}
use winindex.Storage.Serializer.Read.{Outcome, ok}
use winindex.Indexing.Indexer.{Machine, Indexer, cancel}
use winindex.Indexing.Lifecycle.{Place, System, Event, thread_runs, cancels, step, run}
use winindex.Indexing.Lifecycle.Exclusive.{HaveThreads, run-IsExclusive, two_threads}
use winindex.Indexing.Lifecycle.Ends.{steps_left, IsDone, run-IsDone, ends_next}

-- The completion event is created set.
abbrev pub new_indexer : IndexStore → Option (List ℕ) → Indexer
new_indexer store file = record {
  store = store;
  watchers = [];
  files_indexed = 0;
  index_file = file;
  statuses = [];
  is_indexing = false;
  cancelled = false;
}

abbrev pub new_system : IndexStore → Option (List ℕ) → System
new_system store file = record { indexer = new_indexer store file; threads = [] }

-- `Cancel` and `WaitForCompletion`, for `n` steps of the thread that is waited for.
unfoldable pub destroy : Machine → (ℕ → ℕ → Bool) → ℕ → System → Outcome System
unfolding run
destroy sys reads n t = run sys (cancels ∷ replicate n (thread_runs 0 reads)) t

abbrev pub all_steps_left : Machine → List Place → ℕ
all_steps_left sys [] = 0
all_steps_left sys (p ∷ ps) = steps_left sys p + all_steps_left sys ps

at_rest : (b : Bool) → ◌≡◌ {A = ℕ} 0 (if b then 1 else 0) → b ≡ false
at_rest true h = absurd (omega arith)
at_rest false h = refl

module _ (sys : Machine) where
  destroy-one :
      (reads : ℕ → ℕ → Bool) (n : ℕ) (threads : List Place) (s : Indexer)
      → length threads ≡ (if s.is_indexing then 1 else 0)
      → all_steps_left sys threads ≤ n
      → IsDone sys (destroy sys reads n (record { indexer = s; threads = threads }))
  unfolding destroy run step cancel
  destroy-one reads n [] s one h =
      ends_next sys reads n none (cancel s) 0 (omega arith) (at_rest s.is_indexing one)
  destroy-one reads n (p ∷ []) s one h = run-IsDone sys reads p (cancel s) n (omega arith)
  destroy-one reads n (p ∷ (p' ∷ threads)) s one h = absurd (two_threads _ s.is_indexing one)

  -- From the constructor on, after any sequence of steps of the threads, calls and changes in
  -- which every thread that is asked for is created, the wait of the destructor for the
  -- completion event ends within as many steps of the thread as `all_steps_left` counts, with the
  -- event set and no thread left.
  pub destroy-IsDone :
      (store : IndexStore) (file : Option (List ℕ)) (es : List Event) (reads : ℕ → ℕ → Bool) (n : ℕ)
      {t : System}
      → HaveThreads es
      → run sys es (new_system store file) ≡ ok t
      → all_steps_left sys t.threads ≤ n
      → IsDone sys (destroy sys reads n t)
  destroy-IsDone store file es reads n {t = t} c e h =
      let x =
        run-IsExclusive sys es (new_system store file) c
          (record { one_thread = refl; watched_once = tt }) e in
      destroy-one reads n t.threads t.indexer x.one_thread h
