-- ===== src/Indexing/FindFile/Listing.antt =====
-- What one directory contributes to a scan: the files that it emits and the directories that it queues.
use winindex.Prelude.{
  ℕ, ◌≡◌, sym, ap, ◌∙◌, Bool, false, List, [], ◌∷◌, ◌++◌, if◌then◌else◌, WString, codes, Bool-cases,
  inl, inr, append_assoc, append-nil,
}
use winindex.Storage.Pool.{FileEntry}
use winindex.Indexing.FindFile.{
  FindData, Found, found, access_denied, other_error, Volume, Scan, with_backslash, has_attribute,
  is_passed_over, full_path, skip, tick, is_excluded, found_entry, on_file, visit_entry,
  scan_entries, scan_found, scan_one,
}

module _ (vol : Volume) where
  abbrev pub files_among : WString → List FindData → List FileEntry
  files_among current [] = []
  files_among current (fd ∷ fds) =
      if is_passed_over fd
      then files_among current fds
      else if has_attribute 16 fd
      then files_among current fds
      else found_entry vol current fd ∷ files_among current fds

  abbrev pub dirs_among : WString → List FindData → List WString
  dirs_among current [] = []
  dirs_among current (fd ∷ fds) =
      if is_passed_over fd
      then dirs_among current fds
      else if has_attribute 16 fd
      then full_path current fd ∷ dirs_among current fds
      else dirs_among current fds

  abbrev pub entries_of : Found → List FindData
  entries_of (found fds) = fds
  entries_of _ = []

  -- The entries of a directory that is not excluded and can be read.
  abbrev pub listing : WString → List FindData
  listing dir =
      if is_excluded vol dir
      then []
      else entries_of (vol.find_files (with_backslash dir ++ codes "*"))

  abbrev pub files_of : WString → List FileEntry
  files_of dir = files_among dir (listing dir)

  abbrev pub dirs_of : WString → List WString
  dirs_of dir = dirs_among dir (listing dir)

  module _ (seen : ℕ → Bool) (calm : (k : ℕ) → seen k ≡ false) where
    scan_entries-among :
        (current : WString) (fds : List FindData) (queue : List WString) (s : Scan)
        → (s' : Scan) × (scan_entries vol seen current fds queue s
            ≡ (queue ++ dirs_among current fds, s'))
          × (s'.files ≡ s.files ++ files_among current fds)
    unfolding scan_entries visit_entry on_file
    scan_entries-among current [] queue s = (s, rw append-nil, sym (append-nil s.files))
    scan_entries-among current (fd ∷ fds) queue s = elim (Bool-cases (is_passed_over fd)) [
      | inl over ↦
          let (s', e, q) = scan_entries-among current fds queue (tick s) in
          (s', rw (calm s.reads, scan_entries, over, visit_entry) e, rw over q)
      | inr kept ↦ elim (Bool-cases (has_attribute 16 fd)) [
        | inl dir ↦
            let dirs = full_path current fd ∷ [] in
            let (s', e, q) = scan_entries-among current fds (queue ++ dirs) (tick s) in
            (
              s',
              rw (calm s.reads, scan_entries, kept, dir, visit_entry)
                  (e ∙ ap (λ t. (t, s')) (append_assoc queue dirs (dirs_among current fds))),
              rw (kept, dir) q,
            )
        | inr file ↦
            let here = found_entry vol current fd ∷ [] in
            let (s', e, q) =
              scan_entries-among current fds queue (on_file vol current fd (tick s)) in
            (
              s',
              rw (calm s.reads, scan_entries, kept, file, visit_entry) e,
              rw (kept, file) (q ∙ append_assoc s.files here (files_among current fds)),
            )
      ]
    ]

    pub scan_one-of :
        (dir : WString) (queue : List WString) (s : Scan)
        → (s' : Scan) × (scan_one vol seen dir queue s ≡ (queue ++ dirs_of dir, s'))
          × (s'.files ≡ s.files ++ files_of dir)
    unfolding scan_one
    scan_one-of dir queue s = elim (Bool-cases (is_excluded vol dir)) [
      | inl excluded ↦ (skip s, rw (excluded, append-nil), rw (excluded, append-nil))
      | inr open_dir ↦ rw open_dir (of_found (vol.find_files (with_backslash dir ++ codes "*")))
    ]
      where
        of_found :
            (o : Found)
            → (s' : Scan) × (scan_found vol seen dir o queue s
                ≡ (queue ++ dirs_among dir (entries_of o), s'))
              × (s'.files ≡ s.files ++ files_among dir (entries_of o))
        of_found (found fds) = scan_entries-among dir fds queue s
        of_found access_denied = (skip s, rw append-nil, sym (append-nil s.files))
        of_found other_error = (s, rw append-nil, sym (append-nil s.files))
