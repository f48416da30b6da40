-- ===== src/Indexing/FindFile/Progress.antt =====
-- What a breadth-first scan reports of its progress, whatever the reads of the cancel flag give.
use mathlib.Core.List.{map-append}
use winindex.Prelude.{
  ℕ, zero, suc, ◌+◌, ◌%◌, ◌≡◌, refl, ◌∙◌, ap, Bool, true, false, some, none, Option, List, [], ◌∷◌,
  ◌++◌, map, arith, WString, codes, ◌==◌, Bool-cases, inl, inr, if_cases, if◌then◌else◌, length,
  length-append,
}
use winindex.Indexing.FindFile.{
  FindData, Found, found, access_denied, other_error, Volume, Scan, start_scan, with_backslash,
  has_attribute, is_passed_over, full_path, skip, tick, is_excluded, on_file, found_entry,
  visit_entry, scan_entries, scan_found, scan_one, scan_queue, scan_directory, scan_roots, and_then,
}

-- What every step of a scan keeps, the scan keeps.
module _ (vol : Volume) (seen : ℕ → Bool) (P : Scan → Type 0)
    (tick-P : (s : Scan) → P s → P (tick s)) (skip-P : (s : Scan) → P s → P (skip s))
    (on_file-P : (current : WString) (fd : FindData) (s : Scan)
      → P s
      → P (on_file vol current fd s)) where
  visit_entry-P :
      (current : WString) (fd : FindData) (queue : List WString) (s : Scan)
      → P s
      → P (visit_entry vol current fd (queue, s)).1
  unfolding visit_entry
  visit_entry-P current fd queue s h =
      let Q = λ (r : List WString × Scan). P r.1 in
      if_cases Q (is_passed_over fd) (queue, s) _ (λ _. h)
        (λ _.
          if_cases Q (has_attribute 16 fd) (queue ++ full_path current fd ∷ [], s) _ (λ _. h)
            (λ _. on_file-P current fd s h))

  scan_entries-P :
      (current : WString) (fds : List FindData) (queue : List WString) (s : Scan)
      → P s
      → P (scan_entries vol seen current fds queue s).1
  unfolding scan_entries
  scan_entries-P current [] queue s h = h
  scan_entries-P current (fd ∷ fds) queue s h = elim (Bool-cases (seen s.reads)) [
    | inl stop ↦ rw (stop, scan_entries) (tick-P s h)
    | inr go ↦
        let next = visit_entry vol current fd (queue, tick s) in
        rw (go, scan_entries)
          (scan_entries-P current fds next.0 next.1
            (visit_entry-P current fd queue (tick s) (tick-P s h)))
  ]

  scan_found-P :
      (current : WString) (o : Found) (queue : List WString) (s : Scan)
      → P s
      → P (scan_found vol seen current o queue s).1
  scan_found-P current (found fds) queue s h = scan_entries-P current fds queue s h
  scan_found-P current access_denied queue s h = skip-P s h
  scan_found-P current other_error queue s h = h

  scan_one-P :
      (current : WString) (queue : List WString) (s : Scan)
      → P s
      → P (scan_one vol seen current queue s).1
  unfolding scan_one
  scan_one-P current queue s h =
      if_cases (λ (r : List WString × Scan). P r.1) (is_excluded vol current) (queue, skip s) _
        (λ _. skip-P s h)
        (λ _. scan_found-P current (vol.find_files (with_backslash current ++ codes "*")) queue s h)

  abbrev WhenEnded : Option Scan → Type 0
  WhenEnded none = Unit
  WhenEnded (some s) = P s

  scan_queue-P :
      (fuel : ℕ) (queue : List WString) (s : Scan)
      → P s
      → WhenEnded (scan_queue vol seen fuel queue s)
  unfolding scan_queue
  scan_queue-P fuel [] s h = h
  scan_queue-P zero (dir ∷ queue) s h = tt
  scan_queue-P (suc fuel) (dir ∷ queue) s h = elim (Bool-cases (seen s.reads)) [
    | inl stop ↦ rw (stop, scan_queue) (tick-P s h)
    | inr go ↦
        let next = scan_one vol seen dir queue (tick s) in
        rw (go, scan_queue)
          (scan_queue-P fuel next.0 next.1 (scan_one-P dir queue (tick s) (tick-P s h)))
  ]

  and_then-P :
      (o : Option Scan) (f : Scan → Option Scan)
      → WhenEnded o
      → ((s : Scan) → P s → WhenEnded (f s))
      → WhenEnded (and_then vol seen o f)
  and_then-P none f h k = tt
  and_then-P (some s) f h k = k s h

  scan_roots-P :
      (fuel : ℕ) (roots : List WString) (s : Scan)
      → P s
      → WhenEnded (scan_roots vol seen fuel roots s)
  unfolding scan_roots scan_directory
  scan_roots-P fuel [] s h = h
  scan_roots-P fuel (root ∷ roots) s h =
      if_cases WhenEnded (seen s.reads) (some (tick s)) _ (λ _. tick-P s h)
        (λ _.
          and_then-P (scan_directory vol seen fuel root (tick s)) (scan_roots vol seen fuel roots)
            (scan_queue-P fuel (root ∷ []) (tick s) (tick-P s h)) (scan_roots-P fuel roots))

-- The multiples of 10000 from 1 to a number, in order.
abbrev pub multiples : ℕ → List ℕ
multiples zero = []
multiples (suc n) =
    let rest = multiples n in if suc n % 10000 == 0 then rest ++ suc n ∷ [] else rest

-- The reported counts are the multiples of 10000 up to the number of files.
abbrev pub ReportsMultiples : Scan → Type 0
ReportsMultiples s =
    (map (λ (p : ℕ × WString). p.0) s.progress ≡ multiples s.files_found)
    × (length s.files ≡ s.files_found)

map-reported :
    (b : Bool) (l : List (ℕ × WString)) (p : ℕ × WString)
    → map (λ (q : ℕ × WString). q.0) (if b then l ++ p ∷ [] else l) ≡ (
        if b
        then map (λ (q : ℕ × WString). q.0) l ++ p.0 ∷ []
        else map (λ (q : ℕ × WString). q.0) l)
map-reported true l p = map-append (λ (q : ℕ × WString). q.0) l (p ∷ [])
map-reported false l p = refl

module _ (vol : Volume) (seen : ℕ → Bool) where
  on_file-ReportsMultiples :
      (current : WString) (fd : FindData) (s : Scan)
      → ReportsMultiples s
      → ReportsMultiples (on_file vol current fd s)
  unfolding on_file
  on_file-ReportsMultiples current fd s (reported, counted) =
      let n = s.files_found + 1 in
      let onto = λ (l : List ℕ). if n % 10000 == 0 then l ++ n ∷ [] else l in
      let next : n ≡ suc s.files_found = omega arith in
      let counts : onto (multiples s.files_found) ≡ multiples n = rw next refl in
      (
        map-reported (n % 10000 == 0) s.progress (n, current) ∙ (ap onto reported ∙ counts),
        omega (arith, length-append s.files (found_entry vol current fd ∷ []), counted),
      )

  pub scan_roots-ReportsMultiples :
      (fuel : ℕ) (roots : List WString) (s : Scan)
      → scan_roots vol seen fuel roots start_scan ≡ some s
      → ReportsMultiples s
  scan_roots-ReportsMultiples fuel roots s e = rw e at (
      scan_roots-P vol seen ReportsMultiples (λ s h. h) (λ s h. h) on_file-ReportsMultiples fuel
        roots start_scan (refl, refl))
