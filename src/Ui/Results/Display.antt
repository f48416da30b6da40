-- ===== src/Ui/Results/Display.antt =====
-- The results of a search as the list shows them.
use winindex.Prelude.{
  ℕ, zero, suc, ◌+◌, ◌-◌, ◌%◌, ◌^◌, ◌≡◌, ◌<◌, refl, sym, ap, ◌∙◌, Option, none, some, List, [], ◌∷◌,
  ◌++◌, length, take, drop, get_elem?, slice?, slice?-eq_some, drop-add, All, WString, arith,
  Bool-cases, Option-cases, inl, inr, if◌then◌else◌,
}
use winindex.Storage.Pool.{EntryMeta, IndexPool}
use winindex.Storage.Pool.Bounds.{InBounds, IsWellFormed}
use winindex.Storage.Pool.Views.{path_of}
use winindex.Search.Workers.{SearchResult, Matcher, live_match, matches_in}
use winindex.Ui.Results.{DisplayEntry, name_len, display_meta, display_entry, display_results}

-- A live entry with its path, the name at the end of it, and where the query matched.
abbrev pub shown_as : IndexPool → EntryMeta → SearchResult → DisplayEntry
shown_as p m r = record {
  name = drop m.name_start (path_of p.path_pool m);
  path = path_of p.path_pool m;
  size = m.size;
  last_modified = m.last_modified;
  attributes = m.attributes;
  match_start = r.match_start;
  match_len = r.match_len;
}

abbrev shown_match : IndexPool → EntryMeta → Option SearchResult → List DisplayEntry
shown_match p m none = []
shown_match p m (some r) = shown_as p m r ∷ []

abbrev pub shown_from : Matcher → IndexPool → ℕ → List EntryMeta → List DisplayEntry
shown_from matcher p i [] = []
shown_from matcher p i (m ∷ ms) =
    shown_match p m (if m.deleted then none else matcher i m) ++ shown_from matcher p (suc i) ms

take-nil : (k : ℕ) → take {A = ℕ} k [] ≡ []
take-nil zero = refl
take-nil (suc k) = refl

drop-take : (a n : ℕ) (s : WString) → drop a (take n s) ≡ take (n - a) (drop a s)
drop-take zero n s = ap (λ (k : ℕ). take k s) {x = n} (omega arith)
drop-take (suc a) zero s = ap (λ (k : ℕ). take k (drop (suc a) s)) {x = 0} (omega arith)
drop-take (suc a) (suc n) [] = sym (take-nil (suc n - suc a))
drop-take (suc a) (suc n) (c ∷ s) =
    drop-take a n s
    ∙ ap (λ (k : ℕ). take k (drop a s)) {x = n - a} {y = suc n - suc a} (omega arith)

drop-suc :
    (i : ℕ) (xs : List EntryMeta) (m : EntryMeta) (ms : List EntryMeta)
    → drop i xs ≡ m ∷ ms
    → drop (suc i) xs ≡ ms
drop-suc i xs m ms q =
    ap (λ (k : ℕ). drop k xs) {x = suc i} {y = i + 1} (omega arith)
    ∙ drop-add i 1 xs
    ∙ ap (λ (l : List EntryMeta). drop 1 l) q

get_elem?-drop :
    (i : ℕ) (xs : List EntryMeta) (m : EntryMeta) (ms : List EntryMeta)
    → drop i xs ≡ m ∷ ms
    → get_elem? xs i ≡ some m
get_elem?-drop zero [] m ms q = absurd cc
get_elem?-drop (suc i) [] m ms q = absurd cc
get_elem?-drop zero (x ∷ xs) m ms q = cc
get_elem?-drop (suc i) (x ∷ xs) m ms q = get_elem?-drop i xs m ms q

module _ (p : IndexPool) where
  display_meta-shown_as :
      (m : EntryMeta) (r : SearchResult)
      → InBounds (length p.path_pool) (length p.name_lower_pool) m
      → m.path_len < 2 ^ 16
      → display_meta p r (some m) ≡ some (shown_as p m r)
  display_meta-shown_as m r b short =
      let n : name_len m ≡ m.path_len - m.name_start = omega (arith, b.name_inside) in
      let name : slice? p.path_pool (m.path_offset + m.name_start) (name_len m)
          ≡ some (drop m.name_start (path_of p.path_pool m)) =
        rw n (
          slice?-eq_some p.path_pool (m.path_offset + m.name_start) (m.path_len - m.name_start)
            (omega (arith, b.name_inside, b.path_inside))
          ∙ ap (λ (t : WString). some (take (m.path_len - m.name_start) t))
              (drop-add m.path_offset m.name_start p.path_pool)
          ∙ ap some (sym (drop-take m.name_start m.path_len (drop m.path_offset p.path_pool)))) in
      let path : slice? p.path_pool m.path_offset m.path_len ≡ some (path_of p.path_pool m) =
        slice?-eq_some p.path_pool m.path_offset m.path_len b.path_inside in
      rw (name, path) refl

  module _ (matcher : Matcher)
      (indexed : (i : ℕ) (m : EntryMeta) (r : SearchResult)
        → matcher i m ≡ some r
        → r.entry_index ≡ i % 2 ^ 32) where
    -- A match is under the index of its entry.
    live_match-index :
        (i : ℕ) (m : EntryMeta) (r : SearchResult)
        → live_match matcher i m ≡ some r
        → r.entry_index ≡ i % 2 ^ 32
    live_match-index i m r hit = elim (Bool-cases m.deleted) [
      | inl gone ↦ absurd (let miss : live_match matcher i m ≡ none = rw gone in cc)
      | inr live ↦
          let same : live_match matcher i m ≡ matcher i m = rw live in
          indexed i m r (sym same ∙ hit)
    ]

    display_from :
        (i : ℕ) (ms : List EntryMeta)
        → drop i p.metas ≡ ms
        → i + length ms < 2 ^ 32
        → All (InBounds (length p.path_pool) (length p.name_lower_pool)) ms
        → All (λ m. m.path_len < 2 ^ 16) ms
        → display_results p (matches_in matcher i ms) ≡ some (shown_from matcher p i ms)
    unfolding display_results display_entry
    display_from i [] q few b short = refl
    display_from i (m ∷ ms) q few b short =
        let rest = display_from (suc i) ms (drop-suc i p.metas m ms q) (omega arith) b.1 short.1 in
        elim (Option-cases (live_match matcher i m)) [
          | inl miss ↦ rw miss rest
          | inr (r, hit) ↦
              let at : r.entry_index ≡ i = live_match-index i m r hit ∙ omega arith in
              rw
                (
                  hit,
                  at,
                  get_elem?-drop i p.metas m ms q,
                  display_meta-shown_as m r b.0 short.0,
                  rest,
                )
                refl
        ]

    pub display_results-shown :
        IsWellFormed p
        → All (λ m. m.path_len < 2 ^ 16) p.metas
        → length p.metas < 2 ^ 32
        → display_results p (matches_in matcher 0 p.metas) ≡ some (shown_from matcher p 0 p.metas)
    display_results-shown well_formed short few =
        display_from 0 p.metas refl (omega arith) well_formed short
