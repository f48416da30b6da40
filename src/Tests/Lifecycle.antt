-- ===== src/Tests/Lifecycle.antt =====
-- The threads of the indexer, step by step.
use winindex.Prelude.{
  ℕ, Bool, ◌≤◌, ◌≡◌, refl, true, false, none, List, [], ◌∷◌, arith, length, codes,
}
use winindex.Storage.Serializer.Read.{Outcome, ok, rejected, fault}
use winindex.Indexing.Indexer.{Indexer, cancel}
use winindex.Indexing.Lifecycle.{
  locks, System, Event, thread_runs, indexes, cancels, run, step, request, run_thread, thread_step,
}
use winindex.Indexing.Lifecycle.Exclusive.{IsExclusive, run-IsExclusive}
use winindex.Indexing.Lifecycle.Cancels.{late_threads, run-cancels}
use winindex.Indexing.Lifecycle.Ends.{IsDone}
use winindex.Indexing.Lifecycle.Whole.{new_system, destroy, destroy-IsDone}
use winindex.Indexing.Lifecycle.Stuck.{run-stuck}
use winindex.Tests.Storage.{store_of, two_files}
use winindex.Tests.Indexing.{machine}

-- The scanners never see the flag set.
abbrev calm : ℕ → ℕ → Bool
calm i k = false

abbrev resting : Indexer
resting = record {
  store = store_of two_files;
  watchers = codes "D:\\" ∷ [];
  files_indexed = 0;
  index_file = none;
  statuses = [];
  is_indexing = false;
  cancelled = false;
}

abbrev idle : System
idle = record { indexer = resting; threads = [] }

abbrev result_of : Outcome System → System
result_of (ok t) = t
result_of rejected = idle
result_of fault = idle

-- New paths are indexed while the window cancels and starts again.
abbrev events : List Event
events =
    indexes (codes "C:\\" ∷ []) true
    ∷ (thread_runs 0 calm
        ∷ (cancels
            ∷ (indexes (codes "E:\\" ∷ []) true
                ∷ (thread_runs 0 calm ∷ (thread_runs 0 calm ∷ (thread_runs 0 calm ∷ []))))))

idle-IsExclusive : IsExclusive idle
idle-IsExclusive = record { one_thread = refl; watched_once = (refl, tt) }

run-IsExclusive_example : IsExclusive (result_of (run machine events idle))
unfolding run step request run_thread thread_step cancel
run-IsExclusive_example =
    run-IsExclusive machine events idle (refl, (tt, (tt, (refl, (tt, (tt, (tt, tt)))))))
      idle-IsExclusive refl

-- A thread that has read the flag and waits for the lock.
abbrev locking : System
locking = record {
  indexer = record resting { is_indexing = true };
  threads = locks (codes "C:\\") [] ∷ [];
}

locking-IsExclusive : IsExclusive locking
locking-IsExclusive = record { one_thread = refl; watched_once = (refl, tt) }

abbrev steps : List Event
steps = thread_runs 0 calm ∷ (thread_runs 0 calm ∷ [])

run-cancels_example :
    ((result_of (run machine (cancels ∷ steps) locking)).indexer.cancelled ≡ true)
    × (length (result_of (run machine (cancels ∷ steps) locking)).indexer.watchers
        ≤ late_threads locking.threads)
    × (late_threads locking.threads ≤ 1)
unfolding run step run_thread thread_step cancel
run-cancels_example = run-cancels machine steps locking locking-IsExclusive (tt, (tt, tt)) refl

-- The bound is met: a watcher is started after `Cancel`.
late_watcher :
    (result_of (run machine (cancels ∷ steps) locking)).indexer.watchers ≡ codes "C:\\" ∷ []
unfolding run step run_thread thread_step cancel
late_watcher = refl

-- New paths are asked for, and their thread makes a step before the window is closed.
abbrev asked : List Event
asked = indexes (codes "C:\\" ∷ []) true ∷ (thread_runs 0 calm ∷ [])

abbrev asked_system : System
asked_system = result_of (run machine asked (new_system (store_of two_files) none))

destroy-IsDone_example : IsDone machine (destroy machine calm 9 asked_system)
unfolding run step request run_thread thread_step
destroy-IsDone_example =
    destroy-IsDone machine (store_of two_files) none asked calm 9 (refl, (tt, tt)) refl
      (omega arith)

run-stuck_example :
    (t' : System) × (run machine
        (indexes (codes "C:\\" ∷ []) false
          ∷ (thread_runs 0 calm ∷ (indexes (codes "E:\\" ∷ []) true ∷ [])))
        idle
      ≡ ok t')
    × (t'.indexer.is_indexing ≡ true)
    × (t'.threads ≡ [])
    × (t'.indexer.index_file ≡ idle.indexer.index_file)
run-stuck_example =
    run-stuck machine (indexes (codes "C:\\" ∷ []) false)
      (thread_runs 0 calm ∷ (indexes (codes "E:\\" ∷ []) true ∷ [])) idle refl refl refl
