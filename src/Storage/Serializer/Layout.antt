-- ===== src/Storage/Serializer/Layout.antt =====
-- The layout of the path pool that the index file relies on: the paths of all records, tombstones
-- included, lie one behind the other. The file stores no offsets, so this is what can be rebuilt.
use winindex.Prelude.{
  ℕ, ◌+◌, ◌^◌, ◌≤◌, ◌<◌, ◌≡◌, refl, Bool, Option, none, some, List, [], ◌∷◌, ◌++◌, arith, length,
  length-append, All,
}
use winindex.Storage.Pool.{FileEntry, EntryMeta, IndexPool, empty_pool, entry_meta, add_entry}
use winindex.Storage.Pool.Bounds.{FitsEntry, HasRoom, entry_meta-exact, file_name_start-le}
use winindex.Storage.Store.{
  IndexStore, add_all, first_live, mark_first, mark_all, rename_found, path_hits, lower, renamed,
}
use winindex.Storage.Store.Refine.{renamed-FitsEntry, length-add_entry}
use winindex.Storage.Store.Spec.{
  Call, begins, stages, ends, adds, removes, renames, removes_under, saves_usn, step, Fits,
  path_chars, lower_chars,
}

-- The records cover the characters from `off` up to `end`, in order and without gaps.
abbrev pub IsLaidOut : ℕ → ℕ → List EntryMeta → Type 0
IsLaidOut off end [] = off ≡ end
IsLaidOut off end (m ∷ ms) =
    (m.path_offset ≡ off)
    × (m.name_start ≤ m.path_len)
    × (m.path_len < 2 ^ 16)
    × IsLaidOut (off + m.path_len) end ms

abbrev pub IsLaidOutPool : IndexPool → Type 0
IsLaidOutPool p = IsLaidOut 0 (length p.path_pool) p.metas

IsLaidOut-snoc :
    (off mid end : ℕ) (ms : List EntryMeta) (m : EntryMeta)
    → IsLaidOut off mid ms
    → IsLaidOut mid end (m ∷ [])
    → IsLaidOut off end (ms ++ (m ∷ []))
IsLaidOut-snoc off mid end [] m l k = omega arith
IsLaidOut-snoc off mid end (x ∷ ms) m l k =
    (l.0, l.1, l.2, IsLaidOut-snoc (off + x.path_len) mid end ms m l.3 k)

IsLaidOut-mark_first :
    (hit : EntryMeta → Bool) (off end : ℕ) (ms : List EntryMeta)
    → IsLaidOut off end ms
    → IsLaidOut off end (mark_first hit ms)
unfolding mark_first
IsLaidOut-mark_first hit off end [] l = l
IsLaidOut-mark_first hit off end (m ∷ ms) l =
    ground (arith, IsLaidOut-mark_first hit (off + m.path_len) end ms l.3)

IsLaidOut-mark_all :
    (hit : EntryMeta → Bool) (off end : ℕ) (ms : List EntryMeta)
    → IsLaidOut off end ms
    → IsLaidOut off end (mark_all hit ms)
unfolding mark_all
IsLaidOut-mark_all hit off end [] l = l
IsLaidOut-mark_all hit off end (m ∷ ms) l =
    ground (arith, IsLaidOut-mark_all hit (off + m.path_len) end ms l.3)

module _ (towlower : ℕ → ℕ) where
  IsLaidOut-add_entry :
      (p : IndexPool) (e : FileEntry)
      → HasRoom p
      → FitsEntry e
      → IsLaidOutPool p
      → IsLaidOutPool (add_entry towlower p e)
  unfolding add_entry
  IsLaidOut-add_entry p e room fits l =
      IsLaidOut-snoc 0 (length p.path_pool) (length (p.path_pool ++ e.path)) p.metas
        (entry_meta towlower p e) l
        (rw (entry_meta-exact towlower p e room fits)
          (omega (arith, length-append p.path_pool e.path, file_name_start-le e.path)))

  IsLaidOut-add_all :
      (es : List FileEntry) (p : IndexPool)
      → All FitsEntry es
      → length p.path_pool + path_chars towlower es < 2 ^ 32
      → length p.name_lower_pool + lower_chars towlower es < 2 ^ 32
      → IsLaidOutPool p
      → IsLaidOutPool (add_all towlower p es)
  unfolding add_all
  IsLaidOut-add_all [] p f a b l = l
  IsLaidOut-add_all (e ∷ es) p f a b l =
      let room : HasRoom p = omega arith in
      let (la, lb) = length-add_entry towlower p e in
      IsLaidOut-add_all es (add_entry towlower p e) f.1 (omega arith) (omega arith)
        (IsLaidOut-add_entry p e room f.0 l)

  -- Every mutating call whose entries fit keeps the paths of all records, tombstones included,
  -- one behind the other without gaps.
  pub step-IsLaidOut :
      (s : IndexStore) (c : Call)
      → Fits towlower s c
      → IsLaidOutPool s.pool
      → IsLaidOutPool (step towlower s c).pool
  unfolding step
  step-IsLaidOut s begins f l = l
  step-IsLaidOut s (stages e) f l = l
  step-IsLaidOut s ends f l =
      IsLaidOut-add_all s.staging_buf empty_pool f.0 (unfold empty_pool in omega arith)
        (unfold empty_pool in omega arith) (unfold empty_pool in refl)
  step-IsLaidOut s (adds e) f l = IsLaidOut-add_entry s.pool e f.0 f.1 l
  step-IsLaidOut s (removes path) f l =
      IsLaidOut-mark_first (path_hits towlower s.pool (lower towlower path)) 0 _ s.pool.metas l
  step-IsLaidOut s (renames old new) f l = renamed_laid_out (first_live hit s.pool.metas)
    where
      hit : EntryMeta → Bool
      hit = path_hits towlower s.pool (lower towlower old)

      renamed_laid_out :
          (o : Option EntryMeta) → IsLaidOutPool (rename_found towlower new hit s.pool o)
      renamed_laid_out none = unfold rename_found in l
      renamed_laid_out (some m) =
          unfold rename_found in
          IsLaidOut-add_entry (record (s.pool) { metas = mark_first hit s.pool.metas })
            (renamed towlower m new) (omega arith) (renamed-FitsEntry towlower m new f.1)
            (IsLaidOut-mark_first hit 0 _ s.pool.metas l)
  step-IsLaidOut s (removes_under prefix) f l = IsLaidOut-mark_all _ 0 _ s.pool.metas l
  step-IsLaidOut s (saves_usn root usn) f l = l
