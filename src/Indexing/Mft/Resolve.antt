-- ===== src/Indexing/Mft/Resolve.antt =====
-- Resolving a reference to a directory's path: when it ends, and with which path.
use winindex.Prelude.{
  ℕ, zero, suc, ◌≡◌, refl, false, none, some, [], ◌∷◌, ◌++◌, ◌==◌, if◌then◌else◌, WString,
  backslash, arith, ◌<◌, Bool-cases, Option-cases, inl, inr,
}
use winindex.Indexing.Mft.{MftEntry, Entries, find_entry, resolve_path}

-- A path for each reference: the root for one that is not in the map or that is its own parent, else
-- the parent's path, the name and a backslash.
abbrev pub IsPaths : Entries → WString → (ℕ → WString) → Type 0
IsPaths es root path =
    (frn : ℕ)
    → ((find_entry frn es ≡ none) → path frn ≡ root)
      × ((e : MftEntry)
          → find_entry frn es ≡ some e
          → path frn ≡ (
              if e.parent_frn == frn
              then root
              else ((path e.parent_frn ++ e.name) ++ backslash ∷ [])))

-- Parents are less deep.
abbrev pub IsForest : Entries → (ℕ → ℕ) → Type 0
IsForest es depth =
    (frn : ℕ) (e : MftEntry)
    → find_entry frn es ≡ some e
    → (e.parent_frn == frn) ≡ false
    → depth e.parent_frn < depth frn

module _ (es : Entries) (root : WString) where
  pub resolve_path-path :
      (path : ℕ → WString) (depth : ℕ → ℕ)
      → IsPaths es root path
      → IsForest es depth
      → (fuel frn : ℕ) → depth frn < fuel
      → resolve_path es root fuel frn ≡ some (path frn)
  unfolding resolve_path
  resolve_path-path path depth paths forest zero frn h = absurd (omega arith)
  resolve_path-path path depth paths forest (suc fuel) frn h =
      elim (Option-cases (find_entry frn es)) [
        | inl q ↦ rw (q, resolve_path, (paths frn).0 q)
        | inr (e, q) ↦ elim (Bool-cases (e.parent_frn == frn)) [
          | inl own ↦ rw (q, resolve_path, own, (paths frn).1 e q, own)
          | inr up ↦ rw (
            q,
            resolve_path,
            up,
            resolve_path-path path depth paths forest fuel e.parent_frn
                (omega (arith, forest frn e q up)),
            (paths frn).1 e q,
            up,
          )
        ]
      ]

  -- Among references each of which is in the map with a parent other than itself that is again
  -- among them, no amount of fuel lets the resolution of a path return.
  pub resolve_path-loops :
      (C : ℕ → Type 0)
      → ((frn : ℕ)
          → C frn
          → (e : MftEntry) × (find_entry frn es ≡ some e)
            × ((e.parent_frn == frn) ≡ false)
            × C e.parent_frn)
      → (fuel frn : ℕ) → C frn
      → resolve_path es root fuel frn ≡ none
  unfolding resolve_path
  resolve_path-loops C closed zero frn c = refl
  resolve_path-loops C closed (suc fuel) frn c =
      let (e, q, up, c') = closed frn c in
      rw (q, resolve_path, up, resolve_path-loops C closed fuel e.parent_frn c') refl
