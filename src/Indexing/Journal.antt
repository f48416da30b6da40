-- ===== src/Indexing/Journal.antt =====
-- src/core/indexer/UsnJournalMonitor.h, UsnJournalMonitor.cpp: the replay and the live monitoring of
-- a volume's change journal. What a read of the journal gives is an argument: `read k usn` is the k-th
-- read, from `usn` on.
pub mod Replay
use winindex.Prelude.{
  ℕ, zero, suc, ◌+◌, ◌/◌, ◌%◌, ◌≡◌, refl, Bool, true, false, Option, none, some, List, [], ◌∷◌,
  ◌++◌, ◌==◌, map, if◌then◌else◌, WString,
}
use winindex.Indexing.Indexer.{FileChangeType, added, removed, modified, FileChangeEvent}

pub record UsnRecord : Type 0 where
  pub reason : ℕ
  pub file_name : WString

-- A failed call, no more bytes than the next USN, or the next USN with records behind it.
pub data Read : Type 0 where
  failed : Read
  no_records : Read
  records_read : ℕ → List UsnRecord → Read

-- The volume handle opens, and its journal can be queried; then the reads.
pub record Journal : Type 0 where
  pub can_open : Bool
  pub can_query : Bool
  pub read : ℕ → ℕ → Read

-- USN_REASON_FILE_CREATE, _FILE_DELETE, _RENAME_OLD_NAME and _RENAME_NEW_NAME by their values.
abbrev pub has_reason : ℕ → UsnRecord → Bool
has_reason bit r = r.reason / bit % 2 == 1

abbrev pub change_of_reason : UsnRecord → FileChangeType
change_of_reason r =
    if has_reason 256 r
    then added
    else if has_reason 512 r
    then removed
    else if has_reason 4096 r
    then removed
    else if has_reason 8192 r
    then added
    else modified

unfoldable pub event_of : WString → UsnRecord → FileChangeEvent
event_of root r = record { change = change_of_reason r; path = root ++ r.file_name; old_path = [] }

-- What a call gives back, with the calls of `onChange`.
pub record Replayed : Type 0 where
  pub last_usn : ℕ
  pub events : List FileChangeEvent

abbrev pub is_available : Journal → Bool
is_available j = if j.can_open then j.can_query else false

-- Both loops run on fuel that counts the reads; `none` is a loop that has not ended.
unfoldable pub replay_loop : Journal → WString → ℕ → ℕ → Replayed → Option Replayed
replay_loop j root zero k s = none
replay_loop j root (suc fuel) k s = elim (j.read k s.last_usn) [
  | failed ↦ some s
  | no_records ↦ some s
  | records_read next rs ↦
      replay_loop j root fuel (suc k)
        (record { last_usn = next; events = s.events ++ map (event_of root) rs })
]

unfoldable pub replay_since : Journal → WString → ℕ → ℕ → Option Replayed
unfolding replay_loop
replay_since j root fuel saved_usn =
    if is_available j
    then replay_loop j root fuel 0 (record { last_usn = saved_usn; events = [] })
    else some (record { last_usn = saved_usn; events = [] })

-- `stop k` is what the k-th read of the stop token gives.
unfoldable pub monitor_loop : Journal → (ℕ → Bool) → WString → ℕ → ℕ → Replayed → Option Replayed
monitor_loop j stop root zero k s = none
monitor_loop j stop root (suc fuel) k s = elim (stop k) [
  | true ↦ some s
  | false ↦ elim (j.read k s.last_usn) [
    | failed ↦ some s
    | no_records ↦ monitor_loop j stop root fuel (suc k) s
    | records_read next rs ↦
        monitor_loop j stop root fuel (suc k)
          (record { last_usn = next; events = s.events ++ map (event_of root) rs })
  ]
]

abbrev pub delivered : Option Replayed → Option (List FileChangeEvent)
delivered none = none
delivered (some s) = some s.events

unfoldable pub start_monitoring :
    Journal → (ℕ → Bool) → WString → ℕ → ℕ → Option (List FileChangeEvent)
unfolding monitor_loop
start_monitoring j stop root fuel start_usn =
    if is_available j
    then delivered (monitor_loop j stop root fuel 0 (record { last_usn = start_usn; events = [] }))
    else some []
