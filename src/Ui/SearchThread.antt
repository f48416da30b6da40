-- ===== src/Ui/SearchThread.antt =====
-- src/ui/MainWindow.cpp, src/core/storage/IndexStore.cpp: the search thread and the lock that it holds
-- on the index, among the calls of the indexer's threads that change the index. A call that has to
-- wait is a step that changes nothing, and so is a search that waits for the one before it.
use winindex.Prelude.{
  ℕ, ◌≡◌, Bool, true, false, Option, none, some, List, [], ◌∷◌, ◌++◌, All, WString, if◌then◌else◌,
}
use winindex.Storage.Pool.{IndexPool}
use winindex.Storage.Store.{IndexStore}
use winindex.Storage.Store.Spec.{Call, begins, stages, step}
use winindex.Search.Workers.{Event, SearchResult}
use winindex.Search.Engine.{Platform, SearchOptions, search}
use winindex.Ui.Results.{DisplayEntry, display_results}

-- Where the thread is: before the search, and behind it. It holds the shared lock all along.
pub data Phase : Type 0 where
  searching : WString → SearchOptions → Phase
  displaying : List SearchResult → Phase

-- `posted` are the results posted to the window; `none` is a read outside the index.
pub record Searches : Type 0 where
  pub store : IndexStore
  pub thread : Option Phase
  pub posted : List (Option (List DisplayEntry))

-- ExecuteSearch; the search of the thread under a schedule of its workers, and its end; and a call of
-- an indexer thread.
pub data SearchEvent : Type 0 where
  executes : WString → SearchOptions → SearchEvent
  searches : List Event → SearchEvent
  displays : SearchEvent
  calls : Call → SearchEvent

-- BeginWrite and StageEntry change the staging buffer alone and take no lock.
abbrev pub takes_lock : Call → Bool
takes_lock begins = false
takes_lock (stages e) = false
takes_lock _ = true

module _ (sys : Platform) (towlower : ℕ → ℕ) (hw : ℕ) where
  abbrev pub search_in : Option Phase → List Event → IndexPool → Option Phase
  search_in (some (searching query opts)) es p =
      some (displaying (search sys query opts hw 10000 p es))
  search_in thread es p = thread

  -- The results are posted, and the lock is released with the end of the thread.
  abbrev pub display_in : Option Phase → Searches → Searches
  display_in (some (displaying raw)) t = record t {
    thread = none;
    posted = t.posted ++ (display_results t.store.pool raw ∷ []);
  }
  display_in thread t = t

  abbrev pub executed : WString → SearchOptions → Option Phase → Option Phase
  executed query opts none = some (searching query opts)
  executed query opts (some phase) = some phase

  abbrev pub called : Call → Option Phase → IndexStore → IndexStore
  called c none s = step towlower s c
  called c (some phase) s = if takes_lock c then s else step towlower s c

  unfoldable pub search_event : SearchEvent → Searches → Searches
  unfolding step search display_results
  search_event (executes query opts) t = record t { thread = executed query opts t.thread }
  search_event (searches es) t = record t { thread = search_in t.thread es t.store.pool }
  search_event displays t = display_in t.thread t
  search_event (calls c) t = record t { store = called c t.thread t.store }

  unfoldable pub search_events : List SearchEvent → Searches → Searches
  unfolding search_event
  search_events [] t = t
  search_events (e ∷ es) t = search_events es (search_event e t)

  -- Results of a search of one pool, shown by the same pool.
  abbrev pub OfOnePool : Option (List DisplayEntry) → Type 0
  OfOnePool shown =
      (p : IndexPool) × (query : WString) × (opts : SearchOptions) × (es : List Event) × (shown
        ≡ display_results p (search sys query opts hw 10000 p es))

  -- What the thread has found, it has found in the pool that is there.
  abbrev Current : Option Phase → IndexPool → Type 0
  Current (some (displaying raw)) p =
      (query : WString) × (opts : SearchOptions) × (es : List Event) × (raw
        ≡ search sys query opts hw 10000 p es)
  Current phase p = Unit

  record IsHeld (t : Searches) : Type 0 where
    found : Current t.thread t.store.pool
    shown : All OfOnePool t.posted
