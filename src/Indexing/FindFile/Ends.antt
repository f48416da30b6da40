-- ===== src/Indexing/FindFile/Ends.antt =====
-- The breadth-first scan ends on every directory tree, however often it is cancelled.
use winindex.Prelude.{
  ℕ, zero, suc, ◌+◌, ◌≤◌, ◌≡◌, refl, Bool, some, List, [], ◌∷◌, ◌++◌, arith, All, WString, codes,
  Bool-cases, inl, inr,
}
use winindex.Indexing.FindFile.{
  FindData, Found, found, access_denied, other_error, Volume, Scan, with_backslash, has_attribute,
  is_passed_over, full_path, tick, is_excluded, on_file, visit_entry, scan_entries, scan_found,
  scan_one, scan_queue, scan_directory, scan_roots,
}
use winindex.Indexing.FindFile.Listing.{dirs_among, dirs_of, entries_of}

abbrev pub total : (WString → ℕ) → List WString → ℕ
total weight [] = 0
total weight (d ∷ ds) = weight d + total weight ds

total-append :
    (weight : WString → ℕ) (xs ys : List WString)
    → total weight (xs ++ ys) ≡ total weight xs + total weight ys
total-append weight [] ys = omega arith
total-append weight (x ∷ xs) ys = omega (arith, total-append weight xs ys)

-- `weight` bounds the directories of each subtree: there is one if the directories, without the
-- reparse points that the scan passes over, are a finite tree.
abbrev pub IsTree : Volume → (WString → ℕ) → Type 0
IsTree vol weight = (dir : WString) → suc (total weight (dirs_of vol dir)) ≤ weight dir

module _ (vol : Volume) (seen : ℕ → Bool) (weight : WString → ℕ) where
  scan_entries-total :
      (current : WString) (fds : List FindData) (queue : List WString) (s : Scan)
      → total weight (scan_entries vol seen current fds queue s).0
        ≤ total weight queue + total weight (dirs_among vol current fds)
  unfolding scan_entries visit_entry
  scan_entries-total current [] queue s = omega arith
  scan_entries-total current (fd ∷ fds) queue s = elim (Bool-cases (seen s.reads)) [
    | inl stop ↦ rw (stop, scan_entries) (omega arith)
    | inr go ↦ elim (Bool-cases (is_passed_over fd)) [
      | inl over ↦
          rw (go, scan_entries, over, visit_entry) (scan_entries-total current fds queue (tick s))
      | inr kept ↦ elim (Bool-cases (has_attribute 16 fd)) [
        | inl dir ↦
            rw (go, scan_entries, kept, dir, visit_entry)
              (omega (
                arith,
                total-append weight queue (full_path current fd ∷ []),
                scan_entries-total current fds (queue ++ full_path current fd ∷ []) (tick s),
              ))
        | inr file ↦
            rw (go, scan_entries, kept, file, visit_entry)
              (scan_entries-total current fds queue (on_file vol current fd (tick s)))
      ]
    ]
  ]

  scan_one-total :
      (dir : WString) (queue : List WString) (s : Scan)
      → total weight (scan_one vol seen dir queue s).0
        ≤ total weight queue + total weight (dirs_of vol dir)
  unfolding scan_one
  scan_one-total dir queue s = elim (Bool-cases (is_excluded vol dir)) [
    | inl excluded ↦ rw excluded (omega arith)
    | inr open_dir ↦ rw open_dir (of_found (vol.find_files (with_backslash dir ++ codes "*")))
  ]
    where
      of_found :
          (o : Found)
          → total weight (scan_found vol seen dir o queue s).0
            ≤ total weight queue + total weight (dirs_among vol dir (entries_of vol o))
      of_found (found fds) = scan_entries-total dir fds queue s
      of_found access_denied = omega arith
      of_found other_error = omega arith

  module _ (tree : IsTree vol weight) where
    scan_queue-ends :
        (fuel : ℕ) (queue : List WString) (s : Scan)
        → total weight queue ≤ fuel
        → (s' : Scan) × (scan_queue vol seen fuel queue s ≡ some s')
    unfolding scan_queue
    scan_queue-ends fuel [] s h = (s, refl)
    scan_queue-ends zero (dir ∷ queue) s h = absurd (omega (arith, tree dir))
    scan_queue-ends (suc fuel) (dir ∷ queue) s h = elim (Bool-cases (seen s.reads)) [
      | inl stop ↦ (tick s, rw (stop, scan_queue))
      | inr go ↦
          let next = scan_one vol seen dir queue (tick s) in
          let (s', e) =
            scan_queue-ends fuel next.0 next.1
              (omega (arith, tree dir, scan_one-total dir queue (tick s))) in
          (s', rw (go, scan_queue) e)
    ]

    -- If the directories, without reparse points, form a tree whose size `weight` bounds and the
    -- fuel is at least the bound of each root, then the breadth-first scan ends from every state,
    -- whatever the reads of the cancel flag give.
    pub scan_roots-ends :
        (fuel : ℕ) (roots : List WString) (s : Scan)
        → All (λ root. weight root ≤ fuel) roots
        → (s' : Scan) × (scan_roots vol seen fuel roots s ≡ some s')
    unfolding scan_roots scan_directory
    scan_roots-ends fuel [] s h = (s, refl)
    scan_roots-ends fuel (root ∷ roots) s h = elim (Bool-cases (seen s.reads)) [
      | inl stop ↦ (tick s, rw stop)
      | inr go ↦
          let (s', e) = scan_queue-ends fuel (root ∷ []) (tick s) (omega arith) in
          let (s'', e') = scan_roots-ends fuel roots s' h.1 in (s'', rw (go, e) e')
    ]
