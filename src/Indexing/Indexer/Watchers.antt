-- ===== src/Indexing/Indexer/Watchers.antt =====
-- Which roots are watched after `StartWatchersForRoots`.
use winindex.Prelude.{
  ℕ, ◌+◌, ◌≡◌, refl, sym, ap, Bool, true, false, ◌||◌, List, [], ◌∷◌, ◌++◌, arith, WString, wstr_eq,
  wstr_eq_iff, Bool-cases, inl, inr,
}
use winindex.Indexing.Indexer.{is_root, start_watchers}

-- No two watchers have the same root.
abbrev pub Distinct : List WString → Type 0
Distinct [] = Unit {0}
Distinct (w ∷ ws) = (is_root w ws ≡ false) × Distinct ws

is_root-snoc :
    (w root : WString) (ws : List WString)
    → is_root w (ws ++ (root ∷ [])) ≡ (is_root w ws || wstr_eq root w)
is_root-snoc w root [] = ground arith
is_root-snoc w root (x ∷ ws) = ground (arith, is_root-snoc w root ws)

wstr_eq_sym : (s t : WString) → wstr_eq s t ≡ wstr_eq t s
wstr_eq_sym s t = ground (arith, wstr_eq_iff s t, wstr_eq_iff t s)

pub Distinct-snoc :
    (root : WString) (ws : List WString)
    → is_root root ws ≡ false
    → Distinct ws
    → Distinct (ws ++ (root ∷ []))
Distinct-snoc root [] new d = (refl, tt)
Distinct-snoc root (w ∷ ws) new d =
    let rest : is_root root ws ≡ false = ground arith in
    (
      ground (arith, is_root-snoc w root ws, wstr_eq_sym w root, d.0),
      Distinct-snoc root ws rest d.1,
    )

is_root-wstr_eq :
    (root r : WString) (ws : List WString) → wstr_eq root r ≡ true → is_root r ws ≡ is_root root ws
is_root-wstr_eq root r ws e = ap (λ t. is_root t ws) (sym ((wstr_eq_iff root r).0 e))

-- If the cancel flag is never seen set and no root is watched twice, then starting watchers for
-- some roots leaves exactly the roots watched that were watched before or are among those roots,
-- and none watched twice.
pub start_watchers-is_root :
    (seen : ℕ → Bool) (k : ℕ) (roots ws : List WString) (r : WString)
    → ((n : ℕ) → seen n ≡ false)
    → Distinct ws
    → Distinct (start_watchers seen k roots ws)
      × (is_root r (start_watchers seen k roots ws) ≡ (is_root r ws || is_root r roots))
unfolding start_watchers
start_watchers-is_root seen k [] ws r calm d = (d, ground arith)
start_watchers-is_root seen k (root ∷ roots) ws r calm d = elim (Bool-cases (is_root root ws)) [
  | inl watched ↦
      let (d', e) = start_watchers-is_root seen (k + 1) roots ws r calm d in
      rw (calm k, watched) (d', ground (arith, e, is_root-wstr_eq root r ws, watched))
  | inr new ↦
      let (d', e) =
        start_watchers-is_root seen (k + 1) roots (ws ++ (root ∷ [])) r calm
          (Distinct-snoc root ws new d) in
      rw (calm k, new) (d', ground (arith, e, is_root-snoc r root ws))
]
