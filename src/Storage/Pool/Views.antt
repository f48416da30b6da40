-- ===== src/Storage/Pool/Views.antt =====
-- What the views of `IndexPool` give back, and the pool seen as the list of its live entries.
use winindex.Prelude.{
  ℕ, ◌+◌, ◌-◌, ◌<◌, ◌≡◌, refl, ap, ◌∙◌, ◌≢◌, true, some, List, [], ◌∷◌, ◌++◌, arith, if◌then◌else◌,
  length, take, drop, All, WString, backslash, get_elem?-append_length, get_elem?-append_left,
  get_elem?-All, slice?-append_right, slice?-append_left, slice?-append_tail, take-drop-append,
  take-length, drop-length, take-append-drop, drop-after_last, leb, le→leb,
}
use winindex.Storage.Pool.{
  FileEntry, EntryMeta, IndexPool, file_name_start, lowered, entry_meta, add_entry, get_path,
  get_name, get_name_lower,
}
use winindex.Storage.Pool.Bounds.{
  FitsEntry, HasRoom, InBounds, IsWellFormed, file_name_start-le, entry_meta-exact,
}

-- What a client of the index sees of a live entry.
pub record Entry : Type 0 where
  pub path : WString
  pub size : ℕ
  pub last_modified : ℕ
  pub attributes : ℕ

abbrev pub path_of : WString → EntryMeta → WString
path_of paths m = take m.path_len (drop m.path_offset paths)

abbrev pub entry_of : WString → EntryMeta → Entry
entry_of paths m = record {
  path = path_of paths m;
  size = m.size;
  last_modified = m.last_modified;
  attributes = m.attributes;
}

abbrev pub live_entries : WString → List EntryMeta → List Entry
live_entries paths [] = []
live_entries paths (m ∷ ms) =
    if m.deleted then live_entries paths ms else entry_of paths m ∷ live_entries paths ms

-- The abstract index: the live entries in order, without offsets and tombstones.
abbrev pub entries : IndexPool → List Entry
entries p = live_entries p.path_pool p.metas

abbrev pub as_entry : FileEntry → Entry
as_entry e = record {
  path = e.path;
  size = e.size;
  last_modified = e.last_modified;
  attributes = e.attributes;
}

pub live_entries-append :
    (paths : WString) (ms ns : List EntryMeta)
    → live_entries paths (ms ++ ns) ≡ live_entries paths ms ++ live_entries paths ns
live_entries-append paths [] ns = refl
live_entries-append paths (m ∷ ms) ns = ground (arith, live_entries-append paths ms ns)

-- Characters added behind the pool change no entry that lies inside it.
pub live_entries-grow :
    (paths more : WString) (lowers : ℕ) (ms : List EntryMeta)
    → All (InBounds (length paths) lowers) ms
    → live_entries (paths ++ more) ms ≡ live_entries paths ms
live_entries-grow paths more lowers [] w = refl
live_entries-grow paths more lowers (m ∷ ms) w =
    rw (take-drop-append paths more m.path_offset m.path_len w.0.path_inside)
      (ground (arith, live_entries-grow paths more lowers ms w.1))

module _ (towlower : ℕ → ℕ) (p : IndexPool) (e : FileEntry) (room : HasRoom p)
    (fits : FitsEntry e) where
  -- `AddEntry` appends exactly the given path, size, time and attributes to the live entries, and
  -- leaves the others as they were, in a well-formed pool whose bounds are kept.
  pub entries-add_entry :
      IsWellFormed p → entries (add_entry towlower p e) ≡ entries p ++ (as_entry e ∷ [])
  unfolding add_entry
  entries-add_entry w =
      live_entries-append (p.path_pool ++ e.path) p.metas (entry_meta towlower p e ∷ [])
      ∙ ap (λ t. t ++ live_entries (p.path_pool ++ e.path) (entry_meta towlower p e ∷ []))
          (live_entries-grow p.path_pool e.path (length p.name_lower_pool) p.metas w)
      ∙ ap (λ t. entries p ++ t)
          (rw (entry_meta-exact towlower p e room fits)
            (rw (drop-length p.path_pool e.path) (rw (take-length e.path))))

  -- If the entry fits the 16-bit lengths and the pool the 32-bit offsets, a new entry's path and
  -- lowercased name read back as they were given, and its name is the rest of the path behind the
  -- last backslash.
  pub views-add_entry :
      let q = add_entry towlower p e in
      let n = length p.metas in
      (get_path q n ≡ some e.path)
      × (get_name q n ≡ some (drop (file_name_start e.path) e.path))
      × (get_name_lower q n ≡ some (lowered towlower e))
  unfolding add_entry get_path get_name get_name_lower
  views-add_entry =
      let at_end = get_elem?-append_length p.metas (entry_meta towlower p e) [] in
      let exact = entry_meta-exact towlower p e room fits in
      let whole : leb (file_name_start e.path) (length e.path) ≡ true =
        le→leb _ _ (file_name_start-le e.path) in
      (
        rw (at_end, exact) (slice?-append_right p.path_pool e.path),
        rw (at_end, exact)
            (rw whole (
              slice?-append_tail p.path_pool e.path (file_name_start e.path)
                (file_name_start-le e.path))),
        rw (at_end, exact) (slice?-append_right p.name_lower_pool (lowered towlower e)),
      )

-- A file name has no backslash in it, and the directory part before it completes the path.
pub file_name_split :
    (path : WString)
    → All (λ c. c ≢ backslash) (drop (file_name_start path) path)
      × (take (file_name_start path) path ++ drop (file_name_start path) path ≡ path)
unfolding file_name_start
file_name_split path = (drop-after_last backslash path, take-append-drop _ path)

-- On a well-formed pool `AddEntry` changes no view of an entry that was there.
pub views-add_entry_old :
    (towlower : ℕ → ℕ) (p : IndexPool) (e : FileEntry) (i : ℕ)
    → IsWellFormed p
    → i < length p.metas
    → let q = add_entry towlower p e in
      (get_path q i ≡ get_path p i)
      × (get_name q i ≡ get_name p i)
      × (get_name_lower q i ≡ get_name_lower p i)
unfolding add_entry get_path get_name get_name_lower
views-add_entry_old towlower p e i w h =
    let (m, at, b) = get_elem?-All _ p.metas i h w in
    let new_metas : List EntryMeta = entry_meta towlower p e ∷ [] in
    rw (get_elem?-append_left p.metas new_metas i h) (
      rw at (
        slice?-append_left p.path_pool e.path m.path_offset m.path_len b.path_inside,
        rw (le→leb _ _ b.name_inside) (
            slice?-append_left p.path_pool e.path (m.path_offset + m.name_start)
              (m.path_len - m.name_start) (omega arith)),
        slice?-append_left p.name_lower_pool (lowered towlower e) m.name_lower_offset
            m.name_lower_len b.lower_inside,
      ))
