-- ===== src/Storage/Pool/Bounds.antt =====
-- The bounds that keep the casts of `IndexPool::AddEntry` exact, and the invariant that every view
-- of an entry stays inside the pools.
use winindex.Prelude.{
  ℕ, ◌+◌, ◌-◌, ◌%◌, ◌^◌, ◌≤◌, ◌<◌, ◌≡◌, [], ◌∷◌, ◌++◌, arith, false, length, drop, length-append,
  length-map, length-take, length-drop, All, All-append, All-map, WString, backslash, after_last-le,
}
use winindex.Storage.Pool.{
  FileEntry, EntryMeta, IndexPool, size_of_diff, file_name_start, name_source, lowered_name,
  lowered, entry_meta, add_entry,
}

-- The lengths fit the 16-bit fields.
pub record FitsEntry (e : FileEntry) : Type 0 where
  pub path_fits : length e.path < 2 ^ 16
  pub name_fits : length e.name < 2 ^ 16
  pub lower_fits : length e.name_lower < 2 ^ 16

-- The offsets of a further entry fit the 32-bit fields.
pub record HasRoom (p : IndexPool) : Type 0 where
  pub path_room : length p.path_pool < 2 ^ 32
  pub lower_room : length p.name_lower_pool < 2 ^ 32

-- The views of `m` stay inside pools of `paths` and `lowers` characters.
pub record InBounds (paths lowers : ℕ) (m : EntryMeta) : Type 0 where
  pub path_inside : m.path_offset + m.path_len ≤ paths
  pub lower_inside : m.name_lower_offset + m.name_lower_len ≤ lowers
  pub name_inside : m.name_start ≤ m.path_len

abbrev pub IsWellFormed : IndexPool → Type 0
IsWellFormed p = All (InBounds (length p.path_pool) (length p.name_lower_pool)) p.metas

pub file_name_start-le : (path : WString) → file_name_start path ≤ length path
unfolding file_name_start
file_name_start-le path = after_last-le backslash path

name_source-lt :
    (name path : WString)
    → length path < 2 ^ 16
    → length name < 2 ^ 16
    → length (name_source name path (length path) (file_name_start path)) < 2 ^ 16
unfolding name_source size_of_diff
name_source-lt [] path hp hn = ground (
  arith,
  file_name_start-le path,
  length-drop (file_name_start path) path,
  length-take (length path - file_name_start path) (drop (file_name_start path) path),
)
name_source-lt (c ∷ name) path hp hn = hn

module _ (towlower : ℕ → ℕ) where
  lowered_name-lt :
      (lower name path : WString)
      → length lower < 2 ^ 16
      → length path < 2 ^ 16
      → length name < 2 ^ 16
      → length (lowered_name towlower lower name path (length path) (file_name_start path)) < 2 ^ 16
  unfolding lowered_name
  lowered_name-lt [] name path hl hp hn = omega (
    arith,
    name_source-lt name path hp hn,
    length-map towlower (name_source name path (length path) (file_name_start path)),
  )
  lowered_name-lt (c ∷ lower) name path hl hp hn = hl

  pub lowered-exact :
      (e : FileEntry)
      → FitsEntry e
      → lowered towlower e
        ≡ lowered_name towlower e.name_lower e.name e.path (length e.path) (file_name_start e.path)
  lowered-exact e f =
      let p : length e.path % 2 ^ 16 ≡ length e.path = omega arith in
      let q : file_name_start e.path % 2 ^ 16 ≡ file_name_start e.path =
        omega (arith, file_name_start-le e.path) in
      rw (p, q)

  pub length-lowered-lt : (e : FileEntry) → FitsEntry e → length (lowered towlower e) < 2 ^ 16
  length-lowered-lt e f =
      rw (lowered-exact e f)
        (lowered_name-lt e.name_lower e.name e.path f.lower_fits f.path_fits f.name_fits)

  -- Within the bounds no cast changes a value.
  pub entry_meta-exact :
      (p : IndexPool) (e : FileEntry)
      → HasRoom p
      → FitsEntry e
      → entry_meta towlower p e ≡ record {
        size = e.size;
        last_modified = e.last_modified;
        path_offset = length p.path_pool;
        name_lower_offset = length p.name_lower_pool;
        attributes = e.attributes;
        path_len = length e.path;
        name_lower_len = length (lowered towlower e);
        name_start = file_name_start e.path;
        deleted = false;
      }
  unfolding entry_meta
  entry_meta-exact p e r f =
      let a : length p.path_pool % 2 ^ 32 ≡ length p.path_pool = omega arith in
      let b : length p.name_lower_pool % 2 ^ 32 ≡ length p.name_lower_pool = omega arith in
      let c : length e.path % 2 ^ 16 ≡ length e.path = omega arith in
      let d : length (lowered towlower e) % 2 ^ 16 ≡ length (lowered towlower e) =
        omega (arith, length-lowered-lt e f) in
      let s : file_name_start e.path % 2 ^ 16 ≡ file_name_start e.path =
        omega (arith, file_name_start-le e.path) in
      λ i. record {
        size = e.size;
        last_modified = e.last_modified;
        path_offset = a i;
        name_lower_offset = b i;
        attributes = e.attributes;
        path_len = c i;
        name_lower_len = d i;
        name_start = s i;
        deleted = false;
      }

  pub InBounds-append :
      (p : IndexPool) (xs ys : WString) (m : EntryMeta)
      → InBounds (length p.path_pool) (length p.name_lower_pool) m
      → InBounds (length (p.path_pool ++ xs)) (length (p.name_lower_pool ++ ys)) m
  InBounds-append p xs ys m b =
      omega (arith, length-append p.path_pool xs, length-append p.name_lower_pool ys)

  entry_meta-InBounds :
      (p : IndexPool) (e : FileEntry)
      → HasRoom p
      → FitsEntry e
      → InBounds
          (length (p.path_pool ++ e.path))
          (length (p.name_lower_pool ++ lowered towlower e))
          (entry_meta towlower p e)
  entry_meta-InBounds p e r f = rw (entry_meta-exact p e r f) (
      omega (
        arith,
        length-append p.path_pool e.path,
        length-append p.name_lower_pool (lowered towlower e),
        file_name_start-le e.path,
      ))

  -- If the lengths fit 16 bits and the offsets 32, `AddEntry` keeps every view of every entry
  -- inside the pools.
  pub add_entry-IsWellFormed :
      (p : IndexPool) (e : FileEntry)
      → HasRoom p
      → FitsEntry e
      → IsWellFormed p
      → IsWellFormed (add_entry towlower p e)
  unfolding add_entry
  add_entry-IsWellFormed p e r f w =
      All-append _ p.metas _ (All-map (InBounds-append p e.path (lowered towlower e)) p.metas w)
        (entry_meta-InBounds p e r f, tt)
