-- ===== src/Storage/Serializer/Bytes.antt =====
-- Integers, strings and records read back from the bytes that were written, whatever follows them.
use winindex.Prelude.{
  ℕ, zero, suc, ◌*◌, ◌/◌, ◌%◌, ◌^◌, ◌<◌, ◌≡◌, refl, ap, true, List, [], ◌∷◌, ◌++◌, arith, length,
  take, drop, length-append, drop-length, All, append_assoc, WString, leb, le→leb,
}
use winindex.Storage.Serializer.{
  le_bytes, le_value, DiskEntry, disk_entry_bytes, disk_entries_bytes, wchar_bytes,
}
use winindex.Storage.Serializer.Read.{ok, read_le, read_wchars, read_disk_entry, read_disk_entries}

pub length-le_bytes : (n v : ℕ) → length (le_bytes n v) ≡ n
unfolding le_bytes
length-le_bytes zero v = refl
length-le_bytes (suc n) v = ap suc (length-le_bytes n (v / 256))

pub le_value-le_bytes : (n v : ℕ) → v < 256 ^ n → le_value (le_bytes n v) ≡ v
unfolding le_bytes le_value
le_value-le_bytes zero v h = omega arith
le_value-le_bytes (suc n) v h = rw (le_value-le_bytes n (v / 256) (smaller n)) (omega arith)
  where
    smaller : (k : ℕ) → v / 256 < 256 ^ n
    smaller k = grind arith

pub take-le_bytes : (n v : ℕ) (rest : List ℕ) → take n (le_bytes n v ++ rest) ≡ le_bytes n v
unfolding le_bytes
take-le_bytes zero v rest = refl
take-le_bytes (suc n) v rest = ap (λ t. v % 256 ∷ t) (take-le_bytes n (v / 256) rest)

pub drop-le_bytes : (n v : ℕ) (rest : List ℕ) → drop n (le_bytes n v ++ rest) ≡ rest
unfolding le_bytes
drop-le_bytes zero v rest = refl
drop-le_bytes (suc n) v rest = drop-le_bytes n (v / 256) rest

pub read_le-le_bytes :
    (n v : ℕ) (rest : List ℕ) → v < 256 ^ n → read_le n (le_bytes n v ++ rest) ≡ ok (v, rest)
unfolding read_le
read_le-le_bytes n v rest h =
    let long : leb n (length (le_bytes n v ++ rest)) ≡ true =
      le→leb n _ (omega (arith, length-append (le_bytes n v) rest, length-le_bytes n v)) in
    rw (long, take-le_bytes n v rest, drop-le_bytes n v rest, le_value-le_bytes n v h)

-- The fields fit their widths on disk.
pub record IsSized (d : DiskEntry) : Type 0 where
  pub size_fits : d.size < 2 ^ 64
  pub time_fits : d.last_modified < 2 ^ 64
  pub attributes_fit : d.attributes < 2 ^ 32
  pub path_len_fits : d.path_len < 2 ^ 16
  pub name_start_fits : d.name_start < 2 ^ 16

pub read_disk_entry-bytes :
    (d : DiskEntry) (rest : List ℕ)
    → IsSized d
    → read_disk_entry (disk_entry_bytes d ++ rest) ≡ ok (d, rest)
unfolding read_disk_entry disk_entry_bytes
read_disk_entry-bytes d rest s = simp (
  append_assoc,
  read_le-le_bytes 8 d.size _ s.size_fits,
  read_le-le_bytes 8 d.last_modified _ s.time_fits,
  read_le-le_bytes 4 d.attributes _ s.attributes_fit,
  read_le-le_bytes 2 d.path_len _ s.path_len_fits,
  read_le-le_bytes 2 d.name_start _ s.name_start_fits,
)

pub read_disk_entries-bytes :
    (ds : List DiskEntry) (rest : List ℕ)
    → All IsSized ds
    → read_disk_entries (length ds) (disk_entries_bytes ds ++ rest) ≡ ok (ds, rest)
unfolding read_disk_entries disk_entries_bytes
read_disk_entries-bytes [] rest s = refl
read_disk_entries-bytes (d ∷ ds) rest s =
    rw (append_assoc, read_disk_entry-bytes d _ s.0, read_disk_entries-bytes ds rest s.1)

pub length-wchar_bytes : (cs : WString) → length (wchar_bytes cs) ≡ length cs * 2
unfolding wchar_bytes
length-wchar_bytes [] = refl
length-wchar_bytes (c ∷ cs) = omega (
  arith,
  length-append (le_bytes 2 c) (wchar_bytes cs),
  length-le_bytes 2 c,
  length-wchar_bytes cs,
)

abbrev pub IsWide : ℕ → Type 0
IsWide c = c < 2 ^ 16

pub read_wchars-bytes :
    (cs : WString) (rest : List ℕ)
    → All IsWide cs
    → read_wchars (length cs) (wchar_bytes cs ++ rest) ≡ cs
unfolding read_wchars wchar_bytes
read_wchars-bytes [] rest w = refl
read_wchars-bytes (c ∷ cs) rest w = rw (
  append_assoc,
  take-le_bytes 2 c _,
  drop-le_bytes 2 c _,
  le_value-le_bytes 2 c w.0,
  read_wchars-bytes cs rest w.1,
)

pub drop-wchar_bytes :
    (cs : WString) (rest : List ℕ) → drop (length cs * 2) (wchar_bytes cs ++ rest) ≡ rest
drop-wchar_bytes cs rest = rw (← length-wchar_bytes cs) (drop-length (wchar_bytes cs) rest)

pub length-disk_entry_bytes : (d : DiskEntry) → length (disk_entry_bytes d) ≡ 24
unfolding disk_entry_bytes
length-disk_entry_bytes d = simp (length-append, length-le_bytes)

pub length-disk_entries_bytes :
    (ds : List DiskEntry) → length (disk_entries_bytes ds) ≡ 24 * length ds
unfolding disk_entries_bytes
length-disk_entries_bytes [] = refl
length-disk_entries_bytes (d ∷ ds) = omega (
  arith,
  length-append (disk_entry_bytes d) (disk_entries_bytes ds),
  length-disk_entry_bytes d,
  length-disk_entries_bytes ds,
)
