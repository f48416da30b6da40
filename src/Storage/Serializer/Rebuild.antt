-- ===== src/Storage/Serializer/Rebuild.antt =====
-- What the two passes of `Deserialize` rebuild: the path pool cut into pieces by the path lengths of
-- the records that were written.
use winindex.Prelude.{
  ℕ, zero, suc, ◌+◌, ◌-◌, ◌%◌, ◌^◌, ◌≤◌, ◌<◌, ◌≡◌, refl, ap, false, List, [], ◌∷◌, ◌++◌, map, arith,
  length, take, drop, length-append, length-map, length-take, length-drop, All, All-map, WString,
  slice?, slice?-eq_some,
}
use winindex.Storage.Pool.{EntryMeta}
use winindex.Storage.Pool.Bounds.{InBounds}
use winindex.Storage.Pool.Views.{Entry, live_entries}
use winindex.Storage.Serializer.{DiskEntry, disk_entry, live_disk_entries}
use winindex.Storage.Serializer.Read.{ok, read_name, rebuild}
use winindex.Storage.Serializer.Layout.{IsLaidOut}

-- The path pool cut from `off` on, one piece for each record.
abbrev piece : WString → ℕ → DiskEntry → Entry
piece paths off d = record {
  path = take d.path_len (drop off paths);
  size = d.size;
  last_modified = d.last_modified;
  attributes = d.attributes;
}

abbrev pub cut : WString → ℕ → List DiskEntry → List Entry
cut paths off [] = []
cut paths off (d ∷ ds) = piece paths off d ∷ cut paths (off + d.path_len) ds

abbrev pub total_len : List DiskEntry → ℕ
total_len [] = 0
total_len (d ∷ ds) = d.path_len + total_len ds

abbrev pub HasNames : List DiskEntry → Type 0
HasNames = All (λ d. (d.name_start ≤ d.path_len) × (d.path_len < 2 ^ 16))

read_name-slice? :
    (paths : WString) (off len : ℕ)
    → off + len ≤ length paths
    → read_name (slice? paths off len) len ≡ ok (take len (drop off paths))
unfolding read_name
read_name-slice? paths off zero h = refl
read_name-slice? paths off (suc n) h = rw (slice?-eq_some paths off (suc n) h)

module _ (towlower : ℕ → ℕ) (paths : WString) where
  -- The rebuilt records and names: as many as were read, live, with the paths of `cut`, and with
  -- every view inside the pools.
  abbrev pub Rebuilds : ℕ → ℕ → List DiskEntry → Type 0
  Rebuilds off lower_off ds =
      (r : List EntryMeta × WString) × (rebuild towlower paths off lower_off ds ≡ ok r)
      × (live_entries paths r.0 ≡ cut paths off ds)
      × All (InBounds (length paths) (lower_off + length r.1)) r.0

  pub rebuild-cut :
      (ds : List DiskEntry) (off lower_off : ℕ)
      → HasNames ds
      → lower_off ≤ off
      → off + total_len ds ≤ length paths
      → length paths < 2 ^ 32
      → Rebuilds off lower_off ds
  unfolding rebuild
  rebuild-cut [] off lower_off names low inside small = (([], []), refl, refl, tt)
  rebuild-cut (d ∷ ds) off lower_off names low inside small =
      let name_len = d.path_len - d.name_start in
      let name = take name_len (drop (off + d.name_start) paths) in
      let (ms, e, c, b) =
        rebuild-cut ds (off + d.path_len) (lower_off + name_len) names.1 (omega arith) (omega arith)
          small in
      let wrap : (d.path_len + 2 ^ 16 - d.name_start) % 2 ^ 16 ≡ name_len = omega arith in
      let next : (off + d.path_len) % 2 ^ 32 ≡ off + d.path_len = omega arith in
      let low_wrap : lower_off % 2 ^ 32 ≡ lower_off = omega arith in
      let len_name : length (map towlower name) ≡ name_len = omega (
        arith,
        length-map towlower name,
        length-take name_len (drop (off + d.name_start) paths),
        length-drop (off + d.name_start) paths,
      ) in
      let len_lowers = length-append (map towlower name) ms.1 in
      let m : EntryMeta = record {
        size = d.size;
        last_modified = d.last_modified;
        path_offset = off;
        name_lower_offset = lower_off;
        attributes = d.attributes;
        path_len = d.path_len;
        name_lower_len = name_len;
        name_start = d.name_start;
        deleted = false;
      } in
      (
        (m ∷ ms.0, map towlower name ++ ms.1),
        rw (
          wrap,
          next,
          low_wrap,
          read_name-slice? paths (off + d.name_start) name_len (omega arith),
          e,
        ),
        ap (λ t. cut paths off (d ∷ []) ++ t) c,
        (
          omega arith,
          All-map
              (λ x (h : InBounds (length paths) (lower_off + name_len + length ms.1) x).
                omega arith)
              ms.0 b,
        ),
      )

-- The records of a layout have names, and are not longer than it.
pub live_disk_entries-HasNames :
    (off end : ℕ) (ms : List EntryMeta)
    → IsLaidOut off end ms
    → HasNames (live_disk_entries ms) × (off + total_len (live_disk_entries ms) ≤ end)
live_disk_entries-HasNames off end [] l = (tt, omega arith)
live_disk_entries-HasNames off end (m ∷ ms) l =
    ground (arith, live_disk_entries-HasNames (off + m.path_len) end ms l.3)

abbrev pub NoneDeleted : List EntryMeta → Type 0
NoneDeleted = All (λ m. m.deleted ≡ false)

-- Where nothing is deleted the pieces are the entries' own paths.
pub cut-live_disk_entries :
    (paths : WString) (off end : ℕ) (ms : List EntryMeta)
    → IsLaidOut off end ms
    → NoneDeleted ms
    → cut paths off (live_disk_entries ms) ≡ live_entries paths ms
cut-live_disk_entries paths off end [] l n = refl
cut-live_disk_entries paths off end (m ∷ ms) l n =
    rw (n.0, l.0)
      (ap (λ t. piece paths off (disk_entry m) ∷ t)
        (cut-live_disk_entries paths (off + m.path_len) end ms l.3 n.1))
