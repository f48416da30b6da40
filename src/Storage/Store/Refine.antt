-- ===== src/Storage/Store/Refine.antt =====
-- `IndexStore` implements the abstract index of `Spec`, call by call and over any history.
use winindex.Prelude.{
  ℕ, ◌+◌, ◌^◌, ◌<◌, ◌≡◌, refl, sym, ap, ap₂, ◌∙◌, Option, none, some, List, [], ◌∷◌, ◌++◌, map,
  arith, length, drop, length-append, length-map, length-drop, All, append-nil, append_assoc,
  WString, slice?-eq_some,
}
use winindex.Storage.Pool.{
  FileEntry, EntryMeta, IndexPool, empty_pool, lowered, add_entry, file_name_start,
}
use winindex.Storage.Pool.Bounds.{
  FitsEntry, HasRoom, InBounds, IsWellFormed, add_entry-IsWellFormed,
}
use winindex.Storage.Pool.Views.{Entry, entries, as_entry, entries-add_entry}
use winindex.Storage.Store.{
  IndexStore, lower, mark_first, first_live, path_hits, path_under, with_separator, add_all,
  renamed, rename_found, get_entry_count,
}
use winindex.Storage.Store.Marks.{
  find_first, Agree, Found, live_entries-mark_first, live_entries-mark_all, find_first-first_live,
  mark_first-InBounds, mark_all-InBounds, count_live-length,
}
use winindex.Storage.Store.Spec.{
  Call, begins, stages, ends, adds, removes, renames, removes_under, saves_usn, step, run,
  same_path, is_under, spec_step, spec_run, path_chars, lower_chars, Fits, AllFit, view, rename_in,
}

module _ (towlower : ℕ → ℕ) where
  path_hits-Agree :
      (p : IndexPool) (lowers : ℕ) (path : WString) (ms : List EntryMeta)
      → All (InBounds (length p.path_pool) lowers) ms
      → Agree p.path_pool (path_hits towlower p (lower towlower path)) (same_path towlower path) ms
  unfolding path_hits
  path_hits-Agree p lowers path [] w = tt
  path_hits-Agree p lowers path (m ∷ ms) w = (
    rw (slice?-eq_some p.path_pool m.path_offset m.path_len w.0.path_inside),
    path_hits-Agree p lowers path ms w.1,
  )

  path_under-Agree :
      (p : IndexPool) (lowers : ℕ) (prefix : WString) (ms : List EntryMeta)
      → All (InBounds (length p.path_pool) lowers) ms
      → Agree p.path_pool
          (path_under towlower p (with_separator (lower towlower prefix)))
          (is_under towlower prefix)
          ms
  unfolding path_under
  path_under-Agree p lowers prefix [] w = tt
  path_under-Agree p lowers prefix (m ∷ ms) w = (
    rw (slice?-eq_some p.path_pool m.path_offset m.path_len w.0.path_inside),
    path_under-Agree p lowers prefix ms w.1,
  )

  pub length-add_entry :
      (p : IndexPool) (e : FileEntry)
      → (length (add_entry towlower p e).path_pool ≡ length p.path_pool + length e.path)
        × (length (add_entry towlower p e).name_lower_pool
            ≡ length p.name_lower_pool + length (lowered towlower e))
  unfolding add_entry
  length-add_entry p e =
      (length-append p.path_pool e.path, length-append p.name_lower_pool (lowered towlower e))

  add_all-entries :
      (es : List FileEntry) (p : IndexPool)
      → All FitsEntry es
      → length p.path_pool + path_chars towlower es < 2 ^ 32
      → length p.name_lower_pool + lower_chars towlower es < 2 ^ 32
      → IsWellFormed p
      → IsWellFormed (add_all towlower p es)
        × (entries (add_all towlower p es) ≡ entries p ++ map as_entry es)
  unfolding add_all
  add_all-entries [] p f a b w = (w, sym (append-nil (entries p)))
  add_all-entries (e ∷ es) p f a b w =
      let room : HasRoom p = omega arith in
      let (la, lb) = length-add_entry p e in
      let (w', q) =
        add_all-entries es (add_entry towlower p e) f.1 (omega arith) (omega arith)
          (add_entry-IsWellFormed towlower p e room f.0 w) in
      (
        w',
        q
            ∙ ap (λ t. t ++ map as_entry es) (entries-add_entry towlower p e room f.0 w)
            ∙ append_assoc (entries p) (as_entry e ∷ []) (map as_entry es),
      )

  pub renamed-FitsEntry :
      (m : EntryMeta) (new : WString) → length new < 2 ^ 16 → FitsEntry (renamed towlower m new)
  unfolding renamed
  renamed-FitsEntry m new h = omega (
    arith,
    length-drop (file_name_start new) new,
    length-map towlower (drop (file_name_start new) new),
  )

  -- What one call gives: a well-formed pool, and the abstract index stepped.
  abbrev Refines : IndexStore → Call → Type 0
  Refines s c =
      IsWellFormed (step towlower s c).pool
      × (view (step towlower s c) ≡ spec_step towlower (view s) c)

  removes-Refines :
      (s : IndexStore) (path : WString) → IsWellFormed s.pool → Refines s (removes path)
  unfolding step
  removes-Refines s path w =
      let p = s.pool in
      let hit = path_hits towlower p (lower towlower path) in
      (
        mark_first-InBounds _ _ hit p.metas w,
        ap (λ (es : List Entry). record { live = es; staged = s.staging_buf; usns = s.usn_map })
            (live_entries-mark_first p.path_pool hit (same_path towlower path) p.metas
              (path_hits-Agree p _ path p.metas w)),
      )

  removes_under-Refines :
      (s : IndexStore) (prefix : WString) → IsWellFormed s.pool → Refines s (removes_under prefix)
  unfolding step
  removes_under-Refines s prefix w =
      let p = s.pool in
      let hit = path_under towlower p (with_separator (lower towlower prefix)) in
      (
        mark_all-InBounds _ _ hit p.metas w,
        ap (λ (es : List Entry). record { live = es; staged = s.staging_buf; usns = s.usn_map })
            (live_entries-mark_all p.path_pool hit (is_under towlower prefix) p.metas
              (path_under-Agree p _ prefix p.metas w)),
      )

  Found-renamed :
      (old new : WString) (p : IndexPool) (o : Option EntryMeta) (o' : Option Entry)
      → HasRoom p
      → length new < 2 ^ 16
      → IsWellFormed p
      → Found p.path_pool (path_hits towlower p (lower towlower old)) (same_path towlower old) o o'
      → IsWellFormed (rename_found towlower new (path_hits towlower p (lower towlower old)) p o)
        × (entries (rename_found towlower new (path_hits towlower p (lower towlower old)) p o)
            ≡ rename_in towlower old new (entries p) o')
  unfolding rename_found
  Found-renamed old new p none none room h w e = (w, refl)
  Found-renamed old new p none (some x) room h w e = elim e [ ]
  Found-renamed old new p (some m) none room h w e = elim e [ ]
  Found-renamed old new p (some m) (some x) room h w e =
      let hit = path_hits towlower p (lower towlower old) in
      let q : IndexPool = record p { metas = mark_first hit p.metas } in
      let room' : HasRoom q = record { path_room = room.path_room; lower_room = room.lower_room } in
      let fits = renamed-FitsEntry m new h in
      let w' = mark_first-InBounds _ _ hit p.metas w in
      (
        add_entry-IsWellFormed towlower q (renamed towlower m new) room' fits w',
        entries-add_entry towlower q (renamed towlower m new) room' fits w'
            ∙ ap₂ ◌++◌
                (live_entries-mark_first p.path_pool hit (same_path towlower old) p.metas
                  (path_hits-Agree p _ old p.metas w))
                (rw e (unfold renamed in refl)),
      )

  renames-Refines :
      (s : IndexStore) (old new : WString)
      → HasRoom s.pool
      → length new < 2 ^ 16
      → IsWellFormed s.pool
      → Refines s (renames old new)
  unfolding step
  renames-Refines s old new room h w =
      let p = s.pool in
      let hit = path_hits towlower p (lower towlower old) in
      let (w', q) =
        Found-renamed old new p (first_live hit p.metas)
          (find_first (same_path towlower old) (entries p)) room h w
          (find_first-first_live p.path_pool hit (same_path towlower old) p.metas
            (path_hits-Agree p _ old p.metas w)) in
      (
        w',
        ap (λ (es : List Entry). record { live = es; staged = s.staging_buf; usns = s.usn_map }) q,
      )

  -- Every mutating call of `IndexStore` keeps the pool well formed and does to the live entries, the
  -- staged entries and the journal positions what the abstract index does, whenever the entries
  -- that it adds fit the 16-bit lengths and the 32-bit offsets.
  pub step-Refines :
      (s : IndexStore) (c : Call) → Fits towlower s c → IsWellFormed s.pool → Refines s c
  unfolding step
  step-Refines s begins f w = (w, refl)
  step-Refines s (stages e) f w = (w, refl)
  step-Refines s ends f w =
      let (w', q) =
        add_all-entries s.staging_buf empty_pool f.0 (unfold empty_pool in omega arith)
          (unfold empty_pool in omega arith) (unfold empty_pool in tt) in
      (
        w',
        ap (λ (es : List Entry). record { live = es; staged = []; usns = s.usn_map })
            (q ∙ unfold empty_pool in refl),
      )
  step-Refines s (adds e) f w = (
    add_entry-IsWellFormed towlower s.pool e f.0 f.1 w,
    ap (λ (es : List Entry). record { live = es; staged = s.staging_buf; usns = s.usn_map })
        (entries-add_entry towlower s.pool e f.0 f.1 w),
  )
  step-Refines s (removes path) f w = removes-Refines s path w
  step-Refines s (renames old new) f w = renames-Refines s old new f.0 f.1 w
  step-Refines s (removes_under prefix) f w = removes_under-Refines s prefix w
  step-Refines s (saves_usn root usn) f w = (w, refl)

  -- After any sequence of mutating calls from a well-formed pool, whenever each call's entries
  -- fit the 16-bit lengths and the 32-bit offsets, the pool is well formed, and the live entries,
  -- the staged entries and the journal positions are those of the abstract index after the same
  -- calls.
  pub run-refines :
      (s : IndexStore) (cs : List Call)
      → AllFit towlower s cs
      → IsWellFormed s.pool
      → IsWellFormed (run towlower s cs).pool
        × (view (run towlower s cs) ≡ spec_run towlower (view s) cs)
  unfolding run
  run-refines s [] f w = (w, refl)
  run-refines s (c ∷ cs) f w =
      let (w', q) = step-Refines s c f.0 w in
      let (w'', q') = run-refines (step towlower s c) cs f.1 w' in
      (w'', q' ∙ ap (λ x. spec_run towlower x cs) q)

-- `GetEntryCount` is the number of the live entries.
pub get_entry_count-length : (s : IndexStore) → get_entry_count s ≡ length (entries s.pool)
unfolding get_entry_count
get_entry_count-length s = count_live-length s.pool.path_pool s.pool.metas
