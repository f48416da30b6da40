-- ===== src/Indexing/FindFile/Finds.antt =====
-- A scan that is not cancelled finds exactly the files of the directories that can be reached.
use mathlib.Core.List.{Memᴰ}
use mathlib.Core.List.Memᴰ
use mathlib.Core.Path.{subst}
use winindex.Prelude.{
  Option-cases, ℕ, zero, suc, ◌≡◌, refl, sym, ◌∙◌, ◌↔◌, ◌⊎◌, inl, inr, Bool, false, none, some,
  List, [], ◌∷◌, ◌++◌, All, ◌≤◌, WString,
}
use winindex.Storage.Pool.{FileEntry}
use winindex.Indexing.FindFile.{
  Volume, Scan, start_scan, tick, scan_queue, scan_directory, scan_roots,
}
use winindex.Indexing.FindFile.Listing.{files_of, dirs_of, scan_one-of}
use winindex.Indexing.FindFile.Ends.{IsTree, scan_roots-ends}

-- A directory is reached from another by steps to listed subdirectories; an excluded directory and
-- one that cannot be read list nothing.
pub data Reach (vol : Volume) : WString → WString → Type 0 where
  here : {dir : WString} → Reach vol dir dir
  down :
      {dir sub deep : WString}
      → Memᴰ sub (dirs_of vol dir)
      → Reach vol sub deep
      → Reach vol dir deep

-- A file of a directory that is reached from one of these.
abbrev pub Below : Volume → List WString → FileEntry → Type 0
Below vol roots e =
    (root : WString) × (dir : WString) × Memᴰ root roots
    × Reach vol root dir
    × Memᴰ e (files_of vol dir)

on_left : {A B C : Type 0} → (A → B) → A ⊎ C → B ⊎ C
on_left f (inl a) = inl (f a)
on_left f (inr c) = inr c

module _ (vol : Volume) (e : FileEntry) where
  of_Reach :
      {root dir : WString} (queue : List WString)
      → Reach vol root dir
      → Memᴰ e (files_of vol dir)
      → Memᴰ e (files_of vol root) ⊎ Below vol (queue ++ dirs_of vol root) e
  of_Reach queue here m = inl m
  of_Reach queue (down {sub = sub} {deep = deep} l r) m =
      inr (sub, deep, Memᴰ.append_right queue l, r, m)

  Below-head :
      (dir : WString) (queue : List WString)
      → Below vol (dir ∷ queue) e
      → Memᴰ e (files_of vol dir) ⊎ Below vol (queue ++ dirs_of vol dir) e
  Below-head dir queue (root, deep, k, r, m) = elim (Memᴰ.cases_cons k) [
    | inl p ↦ of_Reach queue (subst (λ d. Reach vol d deep) p r) m
    | inr later ↦ inr (root, deep, Memᴰ.append_left (dirs_of vol dir) later, r, m)
  ]

  Below-cons :
      (dir : WString) (queue : List WString)
      → Memᴰ e (files_of vol dir) ⊎ Below vol (queue ++ dirs_of vol dir) e
      → Below vol (dir ∷ queue) e
  Below-cons dir queue (inl m) = (dir, dir, Memᴰ.head refl, here, m)
  Below-cons dir queue (inr (root, deep, k, r, m)) = elim (Memᴰ.append_cases queue k) [
    | inl later ↦ (root, deep, Memᴰ.tail later, r, m)
    | inr l ↦ (dir, deep, Memᴰ.head refl, down l r, m)
  ]

  -- Taking a directory off the queue moves its files from below to found.
  visited :
      (dir : WString) (queue : List WString) (before after files : List FileEntry)
      → after ≡ before ++ files_of vol dir
      → Memᴰ e files ↔ (Memᴰ e after ⊎ Below vol (queue ++ dirs_of vol dir) e)
      → Memᴰ e files ↔ (Memᴰ e before ⊎ Below vol (dir ∷ queue) e)
  visited dir queue before after files p (to, from) = (λ m. sorted (to m), λ w. from (placed w))
    where
      sorted :
          Memᴰ e after ⊎ Below vol (queue ++ dirs_of vol dir) e
          → Memᴰ e before ⊎ Below vol (dir ∷ queue) e
      sorted (inl m) = elim (Memᴰ.append_cases before (subst (λ l. Memᴰ e l) p m)) [
        | inl old ↦ inl old
        | inr new ↦ inr (Below-cons dir queue (inl new))
      ]
      sorted (inr b) = inr (Below-cons dir queue (inr b))

      placed :
          Memᴰ e before ⊎ Below vol (dir ∷ queue) e
          → Memᴰ e after ⊎ Below vol (queue ++ dirs_of vol dir) e
      placed (inl m) = inl (subst (λ l. Memᴰ e l) (sym p) (Memᴰ.append_left (files_of vol dir) m))
      placed (inr b) = elim (Below-head dir queue b) [
        | inl new ↦ inl (subst (λ l. Memᴰ e l) (sym p) (Memᴰ.append_right before new))
        | inr b' ↦ inr b'
      ]

module _ (vol : Volume) (seen : ℕ → Bool) (calm : (k : ℕ) → seen k ≡ false) (e : FileEntry) where
  scan_queue-finds :
      (fuel : ℕ) (queue : List WString) (s s' : Scan)
      → scan_queue vol seen fuel queue s ≡ some s'
      → Memᴰ e s'.files ↔ (Memᴰ e s.files ⊎ Below vol queue e)
  unfolding scan_queue
  scan_queue-finds fuel [] s s' q =
      let same : s'.files ≡ s.files = cc in
      subst (λ l. Memᴰ e l ↔ (Memᴰ e s.files ⊎ Below vol [] e)) (sym same)
        (λ m. inl m, λ w. elim w [ inl m ↦ m | inr b ↦ absurd (Memᴰ.not-nil b.2) ])
  scan_queue-finds zero (dir ∷ queue) s s' q = absurd cc
  scan_queue-finds (suc fuel) (dir ∷ queue) s s' q =
      let (s1, p, f) = scan_one-of vol seen calm dir queue (tick s) in
      let next : scan_queue vol seen (suc fuel) (dir ∷ queue) s
          ≡ scan_queue vol seen fuel (queue ++ dirs_of vol dir) s1 =
        rw (calm s.reads, scan_queue, p) in
      visited vol e dir queue s.files s1.files s'.files f
        (scan_queue-finds fuel (queue ++ dirs_of vol dir) s1 s' (sym next ∙ q))

  Below-split :
      (root : WString) (roots : List WString) {A : Type 0}
      → ((A ⊎ Below vol (root ∷ []) e) ⊎ Below vol roots e) ↔ (A ⊎ Below vol (root ∷ roots) e)
  Below-split root roots {A} = (join, split)
    where
      join : (A ⊎ Below vol (root ∷ []) e) ⊎ Below vol roots e → A ⊎ Below vol (root ∷ roots) e
      join (inl (inl a)) = inl a
      join (inl (inr (r, d, k, w, m))) = inr (r, d, Memᴰ.append_left roots k, w, m)
      join (inr (r, d, k, w, m)) = inr (r, d, Memᴰ.tail k, w, m)

      split : A ⊎ Below vol (root ∷ roots) e → (A ⊎ Below vol (root ∷ []) e) ⊎ Below vol roots e
      split (inl a) = inl (inl a)
      split (inr (r, d, k, w, m)) = elim (Memᴰ.cases_cons k) [
        | inl p ↦ inl (inr (r, d, Memᴰ.head p, w, m))
        | inr later ↦ inr (r, d, later, w, m)
      ]

  roots-find :
      (fuel : ℕ) (roots : List WString) (s s' : Scan)
      → scan_roots vol seen fuel roots s ≡ some s'
      → Memᴰ e s'.files ↔ (Memᴰ e s.files ⊎ Below vol roots e)
  unfolding scan_roots scan_directory
  roots-find fuel [] s s' q =
      let same : s'.files ≡ s.files = cc in
      subst (λ l. Memᴰ e l ↔ (Memᴰ e s.files ⊎ Below vol [] e)) (sym same)
        (λ m. inl m, λ w. elim w [ inl m ↦ m | inr b ↦ absurd (Memᴰ.not-nil b.2) ])
  roots-find fuel (root ∷ roots) s s' q =
      elim (Option-cases (scan_queue vol seen fuel (root ∷ []) (tick s))) [
        | inl p ↦
            let next : scan_roots vol seen fuel (root ∷ roots) s ≡ none = rw (calm s.reads, p) in
            absurd (cc)
        | inr (s1, p) ↦
            let next : scan_roots vol seen fuel (root ∷ roots) s
                ≡ scan_roots vol seen fuel roots s1 =
              rw (calm s.reads, p) in
            let (to, from) = scan_queue-finds fuel (root ∷ []) (tick s) s1 p in
            let (to', from') = roots-find fuel roots s1 s' (sym next ∙ q) in
            let (join, split) = Below-split root roots in
            (λ m. join (on_left to (to' m)), λ w. from' (on_left from (split w)))
      ]

-- If the directories, without reparse points, form a tree whose size `weight` bounds and the fuel
-- is at least the bound of each root, then a scan that never sees the cancel flag set ends, and
-- the files that it hands to the callback are exactly those listed in the directories that can be
-- reached from a root by listed subdirectories, where an excluded directory and one that cannot
-- be read list nothing.
pub scan_roots-finds :
    (vol : Volume) (seen : ℕ → Bool) (weight : WString → ℕ) (fuel : ℕ) (roots : List WString)
    → ((k : ℕ) → seen k ≡ false)
    → IsTree vol weight
    → All (λ root. weight root ≤ fuel) roots
    → (s' : Scan) × (scan_roots vol seen fuel roots start_scan ≡ some s')
      × ((e : FileEntry) → Memᴰ e s'.files ↔ Below vol roots e)
scan_roots-finds vol seen weight fuel roots calm tree enough =
    let (s', q) = scan_roots-ends vol seen weight tree fuel roots start_scan enough in
    (
      s',
      q,
      λ e.
          let (to, from) = roots-find vol seen calm e fuel roots start_scan s' q in
          (
            λ m. elim (to m) [ inl none_yet ↦ absurd (Memᴰ.not-nil none_yet) | inr b ↦ b ],
            λ b. from (inr b),
          ),
    )
