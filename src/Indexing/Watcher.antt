-- ===== src/Indexing/Watcher.antt =====
-- src/core/indexer/ChangeWatcher.h, ChangeWatcher.cpp: the watch of a root. What each wait ends with
-- is an argument, as are the handles that the system opens.
pub mod Applied
use winindex.Prelude.{
  ℕ, zero, suc, ◌+◌, Bool, true, false, Option, none, some, List, [], ◌∷◌, ◌++◌, ◌==◌, map,
  if◌then◌else◌, WString,
}
use winindex.Indexing.Indexer.{FileChangeType, added, removed, modified, FileChangeEvent}
use winindex.Indexing.FindFile.{with_backslash}

-- FILE_NOTIFY_INFORMATION
pub record Notification : Type 0 where
  pub action : ℕ
  pub file_name : WString

-- What WaitForMultipleObjects and GetOverlappedResult give in a round; no notifications are a buffer
-- that has overflown.
pub data Wait : Type 0 where
  stop_or_error : Wait
  no_result : Wait
  notified : List Notification → Wait

-- FILE_ACTION_ADDED, _REMOVED, _RENAMED_OLD_NAME and _RENAMED_NEW_NAME by their values.
abbrev pub change_of_action : ℕ → FileChangeType
change_of_action action =
    if action == 1
    then added
    else if action == 2
    then removed
    else if action == 5
    then added
    else if action == 4
    then removed
    else modified

unfoldable pub notified_event : WString → Notification → FileChangeEvent
notified_event root info = record {
  change = change_of_action info.action;
  path = with_backslash root ++ info.file_name;
  old_path = [];
}

-- A watcher by the handles that it holds, and its thread.
pub record ChangeWatcher : Type 0 where
  pub root : WString
  pub has_dir : Bool
  pub has_stop_event : Bool
  pub stop : Bool
  pub has_thread : Bool

abbrev pub new_watcher : WString → ChangeWatcher
new_watcher root = record {
  root = root;
  has_dir = false;
  has_stop_event = false;
  stop = false;
  has_thread = false;
}

-- `opens` and `starts` are what CreateFileW and CreateThread give; the event is always created.
unfoldable pub start : Bool → Bool → ChangeWatcher → ChangeWatcher
start opens starts w = record w {
  stop = false;
  has_stop_event = true;
  has_dir = opens;
  has_thread = starts;
}

unfoldable pub stop : ChangeWatcher → ChangeWatcher
stop w = record w { stop = true; has_thread = false; has_dir = false; has_stop_event = false }

-- The rounds of the watch thread; `waits` has what each ends with, and `seen k` is what the k-th
-- read of the stop flag gives. The events are the calls of `onChange`.
unfoldable pub watch_rounds : WString → (ℕ → Bool) → ℕ → List Wait → List FileChangeEvent
watch_rounds root seen k [] = []
watch_rounds root seen k (stop_or_error ∷ waits) = []
watch_rounds root seen k (no_result ∷ waits) = []
watch_rounds root seen k (notified infos ∷ waits) =
    let rest = watch_rounds root seen (suc k) waits in
    if seen k then [] else map (notified_event root) infos ++ rest

unfoldable pub run_watch : (ℕ → Bool) → List Wait → ChangeWatcher → List FileChangeEvent
unfolding watch_rounds
run_watch seen waits w = if w.has_dir then watch_rounds w.root seen 0 waits else []
