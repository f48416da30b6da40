-- ===== src/Indexing/Watcher/Applied.antt =====
-- What the events of the watchers and of the journal do to the index.
use mathlib.Core.Path.{subst}
use winindex.Prelude.{
  append-nil, sym, ℕ, suc, ◌≡◌, refl, ap, ◌∙◌, Bool, true, false, List, [], ◌∷◌, ◌++◌, map, All,
  All-append, WString, Bool-cases, inl, inr, arith,
}
use winindex.Storage.Pool.Bounds.{IsWellFormed}
use winindex.Storage.Store.{IndexStore}
use winindex.Storage.Store.Spec.{Call, removes, run, spec_run, AllFit, view}
use winindex.Storage.Store.Refine.{run-refines}
use winindex.Indexing.Indexer.{
  Machine, FileChangeType, added, removed, renamed_to, modified, FileChangeEvent, apply_change,
}
use winindex.Indexing.Indexer.Changes.{calls_of, adds_of, file_now, apply_change-run}
use winindex.Indexing.FindFile.{with_backslash}
use winindex.Indexing.Watcher.{
  Notification, Wait, stop_or_error, no_result, notified, ChangeWatcher, notified_event,
  watch_rounds, run_watch, change_of_action,
}

-- The callback of a watcher, `ApplyChange`, on its events in their order.
unfoldable pub apply_changes : Machine → List FileChangeEvent → IndexStore → IndexStore
apply_changes sys [] s = s
apply_changes sys (evt ∷ evts) s = apply_changes sys evts (apply_change sys evt s)

abbrev pub calls_of_all : Machine → List FileChangeEvent → List Call
calls_of_all sys [] = []
calls_of_all sys (evt ∷ evts) = calls_of sys evt ++ calls_of_all sys evts

run-append :
    (towlower : ℕ → ℕ) (xs ys : List Call) (s : IndexStore)
    → run towlower s (xs ++ ys) ≡ run towlower (run towlower s xs) ys
unfolding run
run-append towlower [] ys s = refl
run-append towlower (x ∷ xs) ys s = run-append towlower xs ys _

apply_changes-run :
    (sys : Machine) (evts : List FileChangeEvent) (s : IndexStore)
    → apply_changes sys evts s ≡ run sys.towlower s (calls_of_all sys evts)
unfolding apply_changes run
apply_changes-run sys [] s = refl
apply_changes-run sys (evt ∷ evts) s = rw run-append (
    apply_changes-run sys evts (apply_change sys evt s)
    ∙ ap (λ (t : IndexStore). run sys.towlower t (calls_of_all sys evts))
        (apply_change-run sys evt.change evt.path evt.old_path s))

abbrev pub is_rename : FileChangeType → Bool
is_rename added = false
is_rename removed = false
is_rename renamed_to = true
is_rename modified = false

watch_rounds-All :
    (P : FileChangeEvent → Type 0) (root : WString)
    → ((info : Notification) → P (notified_event root info))
    → (seen : ℕ → Bool) (k : ℕ) (waits : List Wait) → All P (watch_rounds root seen k waits)
unfolding watch_rounds
watch_rounds-All P root each seen k [] = tt
watch_rounds-All P root each seen k (stop_or_error ∷ waits) = tt
watch_rounds-All P root each seen k (no_result ∷ waits) = tt
watch_rounds-All P root each seen k (notified infos ∷ waits) = elim (Bool-cases (seen k)) [
  | inl stop ↦ rw stop tt
  | inr go ↦ rw go (
      All-append P (map (notified_event root) infos) (watch_rounds root seen (suc k) waits)
        (of_infos infos) (watch_rounds-All P root each seen (suc k) waits))
]
  where
    of_infos : (l : List Notification) → All P (map (notified_event root) l)
    of_infos [] = tt
    of_infos (info ∷ l) = (each info, of_infos l)

action-is_rename : (action : ℕ) → is_rename (change_of_action action) ≡ false
action-is_rename action = ground arith

pub run_watch-is_rename :
    (seen : ℕ → Bool) (waits : List Wait) (w : ChangeWatcher)
    → All (λ evt. is_rename evt.change ≡ false) (run_watch seen waits w)
unfolding run_watch notified_event
run_watch-is_rename seen waits w = elim (Bool-cases w.has_dir) [
  | inl opened ↦ rw opened (
      watch_rounds-All (λ evt. is_rename evt.change ≡ false) w.root
        (λ info. action-is_rename info.action) seen 0 waits)
  | inr no_dir ↦ rw no_dir tt
]

pub apply_changes-refines :
    (sys : Machine) (evts : List FileChangeEvent) (s : IndexStore)
    → AllFit sys.towlower s (calls_of_all sys evts)
    → IsWellFormed s.pool
    → IsWellFormed (apply_changes sys evts s).pool
      × (view (apply_changes sys evts s) ≡ spec_run sys.towlower (view s) (calls_of_all sys evts))
apply_changes-refines sys evts s f w =
    rw (apply_changes-run sys evts s) (run-refines sys.towlower s (calls_of_all sys evts) f w)

-- The two notifications of a rename.
abbrev pub rename_pair : WString → WString → List Notification
rename_pair old new =
    (record { action = 4; file_name = old }) ∷ ((record { action = 5; file_name = new }) ∷ [])

-- The old path removed, and the new one added if it is a file that can be read.
abbrev pub rename_calls : Machine → WString → WString → WString → List Call
rename_calls sys root old new =
    removes (with_backslash root ++ old) ∷ adds_of sys (file_now sys (with_backslash root ++ new))

-- On a well-formed pool, for a watcher that has its directory open and does not see the stop
-- flag, and if the entries fit, the two notifications of a rename, applied to the store, do to
-- the abstract index what a removal of the old path does, followed by the addition of the new one
-- if there is a file that can be read.
pub run_watch-renames :
    (sys : Machine) (seen : ℕ → Bool) (w : ChangeWatcher) (old new : WString) (s : IndexStore)
    → w.has_dir ≡ true
    → seen 0 ≡ false
    → AllFit sys.towlower s (rename_calls sys w.root old new)
    → IsWellFormed s.pool
    → view (apply_changes sys (run_watch seen (notified (rename_pair old new) ∷ []) w) s)
      ≡ spec_run sys.towlower (view s) (rename_calls sys w.root old new)
unfolding run_watch watch_rounds notified_event
run_watch-renames sys seen w old new s opened go f h =
    let evts = map (notified_event w.root) (rename_pair old new) in
    let same : calls_of_all sys evts ≡ rename_calls sys w.root old new = rw append-nil in
    rw (opened, go, ← same)
      (apply_changes-refines sys evts s
        (subst (λ (cs : List Call). AllFit sys.towlower s cs) (sym same) f) h).1
