-- ===== src/Indexing/Indexer/Changes.antt =====
-- A change of a file seen as a change of the abstract index.
use winindex.Prelude.{
  ◌≡◌, refl, sym, ap, ◌∙◌, append-nil, ◌++◌, ◌+◌, ◌*◌, ◌^◌, ◌/◌, ◌%◌, ◌==◌, Option, none, some,
  List, [], ◌∷◌, WString, Bool-cases, inl, inr, if◌then◌else◌,
}
use winindex.Storage.Pool.{FileEntry}
use winindex.Storage.Pool.Bounds.{IsWellFormed}
use winindex.Storage.Store.{IndexStore, apply_remove, filetime_value}
use winindex.Storage.Store.Spec.{
  Call, adds, removes, renames, step, run, spec_run, AllFit, view, Index, same_path, rename_in,
}
use winindex.Storage.Store.Marks.{remove_first, find_first}
use winindex.Storage.Pool.Views.{Entry, entries}
use winindex.Storage.Store.Refine.{run-refines}
use winindex.Indexing.Indexer.{
  Machine, FileData, FileChangeType, added, removed, renamed_to, modified, FileChangeEvent,
  build_entry, is_directory, build_and_apply_add, apply_change, add_found,
}

module _ (sys : Machine) where
  -- The file at a path, if there is one that can be read and is no directory.
  abbrev file_found : WString → Option FileData → List FileEntry
  file_found path none = []
  file_found path (some fad) = if is_directory sys fad then [] else build_entry sys path fad ∷ []

  abbrev pub file_now : WString → List FileEntry
  file_now path = file_found path (sys.file_data path)

  abbrev pub adds_of : List FileEntry → List Call
  adds_of [] = []
  adds_of (e ∷ es) = adds e ∷ adds_of es

  -- The calls of the store that a change stands for.
  abbrev calls_for : FileChangeType → WString → WString → List Call
  calls_for added path old_path = adds_of (file_now path)
  calls_for modified path old_path = removes path ∷ adds_of (file_now path)
  calls_for removed path old_path = removes path ∷ []
  calls_for renamed_to path [] = adds_of (file_now path)
  calls_for renamed_to path (c ∷ old_path) = renames (c ∷ old_path) path ∷ []

  abbrev pub calls_of : FileChangeEvent → List Call
  calls_of evt = calls_for evt.change evt.path evt.old_path

  add_found-run :
      (path : WString) (s : IndexStore)
      → (build_and_apply_add sys path s).0 ≡ run sys.towlower s (adds_of (file_now path))
  unfolding build_and_apply_add run step
  add_found-run path s = of_data (sys.file_data path)
    where
      of_data :
          (o : Option FileData)
          → (add_found sys path o s).0 ≡ run sys.towlower s (adds_of (file_found path o))
      of_data none = refl
      of_data (some fad) = elim (Bool-cases (is_directory sys fad)) [
        | inl directory ↦ rw directory
        | inr file ↦ rw file
      ]

  pub apply_change-run :
      (t : FileChangeType) (path old_path : WString) (s : IndexStore)
      → apply_change sys (record { change = t; path = path; old_path = old_path }) s
        ≡ run sys.towlower s (calls_for t path old_path)
  unfolding apply_change run step
  apply_change-run added path old_path s = add_found-run path s
  apply_change-run modified path old_path s = add_found-run path (apply_remove sys.towlower path s)
  apply_change-run removed path old_path s = refl
  apply_change-run renamed_to path [] s = add_found-run path s
  apply_change-run renamed_to path (c ∷ old_path) s = refl

  apply_change-refines :
      (evt : FileChangeEvent) (s : IndexStore)
      → AllFit sys.towlower s (calls_of evt)
      → IsWellFormed s.pool
      → IsWellFormed (apply_change sys evt s).pool
        × (view (apply_change sys evt s) ≡ spec_run sys.towlower (view s) (calls_of evt))
  apply_change-refines evt s f w =
      rw (apply_change-run evt.change evt.path evt.old_path s)
        (run-refines sys.towlower s (calls_of evt) f w)

  -- The live entry of a file that the system finds and that is no directory.
  abbrev found_entries : WString → Option FileData → List Entry
  found_entries path none = []
  found_entries path (some fad) =
      let e : Entry = record {
        path = path;
        size = fad.size_high * 2 ^ 32 + fad.size_low;
        last_modified = fad.last_write.high * 2 ^ 32 + fad.last_write.low;
        attributes = fad.file_attributes;
      } in
      if fad.file_attributes / 16 % 2 == 1 then [] else e ∷ []

  abbrev pub on_disk : WString → List Entry
  on_disk path = found_entries path (sys.file_data path)

  -- The live entries after a change of a kind, of a path and an old path.
  abbrev pub changed : FileChangeType → WString → WString → List Entry → List Entry
  changed added path old_path live = live ++ on_disk path
  changed modified path old_path live =
      remove_first (same_path sys.towlower path) live ++ on_disk path
  changed removed path old_path live = remove_first (same_path sys.towlower path) live
  changed renamed_to path [] live = live ++ on_disk path
  changed renamed_to path (c ∷ old_path) live =
      rename_in sys.towlower (c ∷ old_path) path live
        (find_first (same_path sys.towlower (c ∷ old_path)) live)

  spec_run-adds_of :
      (path : WString) (x : Index)
      → spec_run sys.towlower x (adds_of (file_now path))
        ≡ record x { live = x.live ++ on_disk path }
  unfolding build_entry filetime_value
  spec_run-adds_of path x = of_data (sys.file_data path)
    where
      of_data :
          (o : Option FileData)
          → spec_run sys.towlower x (adds_of (file_found path o))
            ≡ record x { live = x.live ++ found_entries path o }
      of_data none = λ i. record x { live = sym (append-nil x.live) i }
      of_data (some fad) = elim (Bool-cases (is_directory sys fad)) [
        | inl directory ↦ rw directory (λ i. record x { live = sym (append-nil x.live) i })
        | inr file ↦ rw file
      ]

  spec_run-changed :
      (t : FileChangeType) (path old_path : WString) (x : Index)
      → spec_run sys.towlower x (calls_for t path old_path)
        ≡ record x { live = changed t path old_path x.live }
  spec_run-changed added path old_path x = spec_run-adds_of path x
  spec_run-changed modified path old_path x =
      spec_run-adds_of path (record x { live = remove_first (same_path sys.towlower path) x.live })
  spec_run-changed removed path old_path x = refl
  spec_run-changed renamed_to path [] x = spec_run-adds_of path x
  spec_run-changed renamed_to path (c ∷ old_path) x = refl

  -- On a well-formed pool, and if the entries it adds fit, a change event leaves the live entries
  -- as it says: a file that the system finds and that is no directory is appended, with the two
  -- halves of its size and time, when it is added, or renamed from an unknown path; when it is
  -- modified the first live entry of its path is taken off and it is appended; a removed one is
  -- taken off; and a renamed one is moved to the end under its new path. The pool stays well
  -- formed, and the staged entries and the journal positions stay as they are.
  pub apply_change-changed :
      (evt : FileChangeEvent) (s : IndexStore)
      → AllFit sys.towlower s (calls_of evt)
      → IsWellFormed s.pool
      → let s' = apply_change sys evt s in
        IsWellFormed s'.pool
        × (entries s'.pool ≡ changed evt.change evt.path evt.old_path (entries s.pool))
        × (s'.staging_buf ≡ s.staging_buf)
        × (s'.usn_map ≡ s.usn_map)
  apply_change-changed evt s f w =
      let (w', v) = apply_change-refines evt s f w in
      let all = v ∙ spec_run-changed evt.change evt.path evt.old_path (view s) in
      (
        w',
        ap (λ (x : Index). x.live) all,
        ap (λ (x : Index). x.staged) all,
        ap (λ (x : Index). x.usns) all,
      )
