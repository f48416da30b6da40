-- ===== src/Ui/Commands/Follows.antt =====
-- What the indexer is asked to do follows the change of the paths.
use winindex.Prelude.{
  ◌≡◌, refl, sym, ap, ◌∙◌, none, Bool, true, false, not, ◌&&◌, some, List, [], ◌∷◌, filter, WString,
  wstr_eq, wstr_eq_iff, arith, Bool-cases, inl, inr,
}
use winindex.Ui.Commands.{
  IndexerCall, rebuilds, keeps, indexes, removes, contains, added_paths, removed_paths, call_for,
  on_settings,
}

-- What a call may ask for, by the paths before the dialog and after it.
abbrev pub Asks : List WString → List WString → IndexerCall → Type 0
Asks old_paths new_paths keeps = (q : WString) → contains q old_paths ≡ contains q new_paths
Asks old_paths new_paths (indexes paths) =
    (q : WString)
    → (contains q paths ≡ (contains q new_paths && not (contains q old_paths)))
      × (contains q old_paths ≡ true → contains q new_paths ≡ true)
Asks old_paths new_paths (removes paths) =
    (q : WString)
    → (contains q paths ≡ (contains q old_paths && not (contains q new_paths)))
      × (contains q new_paths ≡ true → contains q old_paths ≡ true)
Asks old_paths new_paths rebuilds =
    ((q : WString) × (contains q new_paths ≡ true) × (contains q old_paths ≡ false))
    × ((q : WString) × (contains q old_paths ≡ true) × (contains q new_paths ≡ false))

contains-filter :
    (f : WString → Bool) (q : WString) (l : List WString)
    → contains q (filter f l) ≡ (contains q l && f q)
contains-filter f q [] = refl
contains-filter f q (w ∷ l) = elim (Bool-cases (wstr_eq w q)) [
  | inl same ↦
      let e : f w ≡ f q = ap f ((wstr_eq_iff w q).0 same) in ground (arith, contains-filter f q l)
  | inr other ↦ ground (arith, contains-filter f q l)
]

contains_head : (q : WString) (l : List WString) → contains q (q ∷ l) ≡ true
contains_head q l = rw ((wstr_eq_iff q q).1 refl) refl

only : (o n : Bool) → true ≡ (n && not o) → (n ≡ true) × (o ≡ false)
only o n h = ground arith

call_for-Asks :
    (old_paths new_paths a r : List WString)
    → ((q : WString) → contains q a ≡ (contains q new_paths && not (contains q old_paths)))
    → ((q : WString) → contains q r ≡ (contains q old_paths && not (contains q new_paths)))
    → Asks old_paths new_paths (call_for a r)
call_for-Asks old_paths new_paths [] [] p p' = λ q. ground (arith, p q, p' q)
call_for-Asks old_paths new_paths (a ∷ l) [] p p' = λ q. (p q, λ h. ground (arith, p' q))
call_for-Asks old_paths new_paths [] (r ∷ l) p p' = λ q. (p' q, λ h. ground (arith, p q))
call_for-Asks old_paths new_paths (a ∷ l) (r ∷ m) p p' =
    let added =
      only (contains a old_paths) (contains a new_paths) (sym (contains_head a l) ∙ p a) in
    let removed =
      only (contains r new_paths) (contains r old_paths) (sym (contains_head r m) ∙ p' r) in
    ((a, added.0, added.1), (r, removed.0, removed.1))

-- If the settings dialog is cancelled the indexer is not called. If it is confirmed, IndexPaths
-- is called with exactly the new paths that are not among the old ones if all old paths are kept,
-- RemovePaths with exactly the old paths that are not among the new ones if there is no new path,
-- a rebuild only if there is a path of both kinds, and nothing only if the old and new paths are
-- the same set.
pub on_settings-Asks :
    (old_paths new_paths : List WString)
    → Asks old_paths new_paths (on_settings old_paths (some new_paths))
      × (on_settings old_paths none ≡ keeps)
unfolding on_settings added_paths removed_paths
on_settings-Asks old_paths new_paths = (
  call_for-Asks old_paths new_paths (added_paths old_paths new_paths)
      (removed_paths old_paths new_paths)
      (λ q. contains-filter (λ w. not (contains w old_paths)) q new_paths)
      (λ q. contains-filter (λ w. not (contains w new_paths)) q old_paths),
  refl,
)
