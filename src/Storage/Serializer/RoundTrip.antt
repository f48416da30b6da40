-- ===== src/Storage/Serializer/RoundTrip.antt =====
-- `Deserialize` after `Serialize`, on every index that fits the file's integers.
use winindex.Prelude.{
  ℕ, ◌+◌, ◌-◌, ◌*◌, ◌/◌, ◌%◌, ◌^◌, ◌≤◌, ◌<◌, ◌≡◌, refl, sym, true, false, some, List, [], ◌∷◌, ◌++◌,
  arith, ltb, leb, ◌==◌, ==_iff, length, take, drop, length-append, All, WString, wstr_eq,
  append_assoc, append-nil, drop-add,
}
use winindex.Storage.Pool.{EntryMeta, IndexPool}
use winindex.Storage.Store.{UsnMap, usn_set, count_live}
use winindex.Storage.Serializer.{
  le_bytes, crc32, wchar_bytes, live_disk_entries, disk_entries_bytes, usn_entries_bytes,
  payload_bytes, header_bytes, serialize, k_magic, k_version,
}
use winindex.Storage.Serializer.Read.{
  ok, ◌>>=◌, Outcome, read_usns, read_usn_map, rebuild, parse_entries, parse_payload,
  deserialize_bytes, deserialize,
}
use winindex.Storage.Serializer.Bytes.{
  length-le_bytes, le_value-le_bytes, take-le_bytes, drop-le_bytes, IsSized,
  read_disk_entries-bytes, IsWide, length-wchar_bytes, read_wchars-bytes, drop-wchar_bytes,
  length-disk_entries_bytes,
}

-- Roots that fit their fields.
abbrev pub FitsUsns : UsnMap → Type 0
FitsUsns = All (λ e. (length (e.0) < 2 ^ 16) × All IsWide (e.0) × (e.1 < 2 ^ 64))

abbrev Absent : WString → UsnMap → Type 0
Absent root = All (λ e. wstr_eq (e.0) root ≡ false)

-- The keys of the second map are new to the first, and differ from one another.
abbrev pub Apart : UsnMap → UsnMap → Type 0
Apart acc [] = Unit {0}
Apart acc ((root, usn) ∷ m) = Absent root acc × Apart (acc ++ ((root, usn) ∷ [])) m

usn_set-new :
    (root : WString) (usn : ℕ) (m : UsnMap)
    → Absent root m
    → usn_set root usn m ≡ m ++ ((root, usn) ∷ [])
unfolding usn_set
usn_set-new root usn [] a = refl
usn_set-new root usn ((r, u) ∷ m) a = rw (a.0, usn_set-new root usn m a.1)

read_usns-bytes :
    (m acc : UsnMap)
    → FitsUsns m
    → Apart acc m
    → read_usns (length m) (usn_entries_bytes m) acc ≡ acc ++ m
unfolding read_usns usn_entries_bytes
read_usns-bytes [] acc f a = sym (append-nil acc)
read_usns-bytes ((root, usn) ∷ m) acc f a =
    let tail = usn_entries_bytes m in
    let n = length root in
    let body = wchar_bytes root ++ (le_bytes 8 usn ++ tail) in
    let len_body : length body ≡ n * 2 + (8 + length tail) = omega (
      arith,
      length-append (wchar_bytes root) (le_bytes 8 usn ++ tail),
      length-append (le_bytes 8 usn) tail,
      length-wchar_bytes root,
      length-le_bytes 8 usn,
    ) in
    let enough : ltb (length (le_bytes 2 n ++ body)) 2 ≡ false =
      ground (arith, length-append (le_bytes 2 n) body, length-le_bytes 2 n) in
    let whole : ltb (length body) (n * 2 + 8) ≡ false = ground (arith, len_body) in
    rw
      (
        enough,
        take-le_bytes 2 n body,
        drop-le_bytes 2 n body,
        le_value-le_bytes 2 n f.0.0,
        whole,
        drop-add (n * 2) 8 body,
        drop-wchar_bytes root (le_bytes 8 usn ++ tail),
        drop-le_bytes 8 usn tail,
        take-le_bytes 8 usn tail,
        le_value-le_bytes 8 usn f.0.2,
        read_wchars-bytes root (le_bytes 8 usn ++ tail) f.0.1,
        usn_set-new root usn acc a.0,
        read_usns-bytes m (acc ++ ((root, usn) ∷ [])) f.1 a.1,
      )
      (append_assoc acc ((root, usn) ∷ []) m)

read_usn_map-bytes :
    (m : UsnMap)
    → FitsUsns m
    → Apart [] m
    → length m < 2 ^ 32
    → read_usn_map (le_bytes 4 (length m) ++ usn_entries_bytes m) ≡ m
unfolding read_usn_map
read_usn_map-bytes m f a h =
    let tail = usn_entries_bytes m in
    let enough : leb 4 (length (le_bytes 4 (length m) ++ tail)) ≡ true =
      ground (arith, length-append (le_bytes 4 (length m)) tail, length-le_bytes 4 (length m)) in
    rw (
      enough,
      take-le_bytes 4 (length m) tail,
      drop-le_bytes 4 (length m) tail,
      le_value-le_bytes 4 (length m) h,
      read_usns-bytes m [] f a,
    )

count_live-length : (ms : List EntryMeta) → count_live ms ≡ length (live_disk_entries ms)
unfolding count_live
count_live-length [] = refl
count_live-length (m ∷ ms) = ground (arith, count_live-length ms)

length-live_disk_entries-le : (ms : List EntryMeta) → length (live_disk_entries ms) ≤ length ms
length-live_disk_entries-le [] = omega arith
length-live_disk_entries-le (m ∷ ms) = ground (arith, length-live_disk_entries-le ms)

-- What the file's integers can hold.
pub record FitsFile (p : IndexPool) (usns : UsnMap) : Type 0 where
  pub paths_fit : length p.path_pool < 2 ^ 32
  pub paths_wide : All IsWide p.path_pool
  pub count_fits : length p.metas < 2 ^ 32
  pub entries_fit : All IsSized (live_disk_entries p.metas)
  pub usns_fit : FitsUsns usns
  pub usns_apart : Apart [] usns
  pub usn_count_fits : length usns < 2 ^ 32

-- What the two passes give for the records that were written.
abbrev pub rebuilt : (ℕ → ℕ) → IndexPool → UsnMap → Outcome (IndexPool × UsnMap)
rebuilt towlower p usns = do
  (ms, lowers) ← rebuild towlower p.path_pool 0 0 (live_disk_entries p.metas)
  ok (record { metas = ms; name_lower_pool = lowers; path_pool = p.path_pool }, usns)

module _ (towlower : ℕ → ℕ) (p : IndexPool) (usns : UsnMap) (fits : FitsFile p usns) where
  parse_entries-bytes :
      parse_entries towlower p.path_pool (count_live p.metas) (
        disk_entries_bytes (live_disk_entries p.metas)
        ++ (le_bytes 4 (length usns) ++ usn_entries_bytes usns))
      ≡ rebuilt towlower p usns
  unfolding parse_entries
  parse_entries-bytes =
      let ds = live_disk_entries p.metas in
      let tail = le_bytes 4 (length usns) ++ usn_entries_bytes usns in
      let few : length ds < 2 ^ 32 =
        omega (arith, length-live_disk_entries-le p.metas, fits.count_fits) in
      let small : ltb ((2 ^ 63 - 1) / 40) (length ds) ≡ false = ground arith in
      let enough : ltb (length (disk_entries_bytes ds ++ tail)) (24 * length ds % 2 ^ 64) ≡ false =
        ground (arith, length-append (disk_entries_bytes ds) tail, length-disk_entries_bytes ds) in
      rw (
        count_live-length p.metas,
        small,
        enough,
        read_disk_entries-bytes ds tail fits.entries_fit,
        read_usn_map-bytes usns fits.usns_fit fits.usns_apart fits.usn_count_fits,
      )

  parse_payload-bytes :
      parse_payload towlower (count_live p.metas) (payload_bytes p usns) ≡ rebuilt towlower p usns
  unfolding parse_payload payload_bytes
  parse_payload-bytes =
      let n = length p.path_pool in
      let tail =
        disk_entries_bytes (live_disk_entries p.metas)
        ++ (le_bytes 4 (length usns) ++ usn_entries_bytes usns) in
      let body = wchar_bytes p.path_pool ++ tail in
      let wrap : n * 2 % 2 ^ 64 ≡ n * 2 = omega (arith, fits.paths_fit) in
      let long : ltb (length (le_bytes 8 n ++ body)) 8 ≡ false =
        ground (arith, length-append (le_bytes 8 n) body, length-le_bytes 8 n) in
      let enough : ltb (length body) (n * 2) ≡ false =
        ground
          (arith, length-append (wchar_bytes p.path_pool) tail, length-wchar_bytes p.path_pool) in
      let small : ltb ((2 ^ 63 - 1) / 2) n ≡ false = ground (arith, fits.paths_fit) in
      rw
        (
          long,
          take-le_bytes 8 n body,
          drop-le_bytes 8 n body,
          le_value-le_bytes 8 n (omega (arith, fits.paths_fit)),
          wrap,
          enough,
          small,
          drop-wchar_bytes p.path_pool tail,
          read_wchars-bytes p.path_pool tail fits.paths_wide,
        )
        parse_entries-bytes

-- The fields of the header at their offsets, in front of any payload.
header_fields :
    (now count crc : ℕ) (payload : List ℕ)
    → let file = header_bytes now count crc ++ payload in
      (ltb (length file) 26 ≡ false)
      × (take 4 file ≡ le_bytes 4 k_magic)
      × (take 2 (drop 4 file) ≡ le_bytes 2 k_version)
      × (take 8 (drop 6 file) ≡ le_bytes 8 now)
      × (take 8 (drop 14 file) ≡ le_bytes 8 count)
      × (take 4 (drop 22 file) ≡ le_bytes 4 crc)
      × (drop 26 file ≡ payload)
unfolding header_bytes le_bytes
header_fields now count crc payload = (ground arith, refl, refl, refl, refl, refl, refl)

crc32-lt : (bytes : List ℕ) → crc32 bytes < 2 ^ 32
unfolding crc32
crc32-lt bytes = omega arith

==_refl : (n : ℕ) → (n == n) ≡ true
==_refl n = (==_iff n n).1 refl

-- For every pool and map of journal positions that fit the file's integers and every 64-bit time,
-- reading the written bytes passes the checks of the size, the magic number, the version, the CRC
-- and every length, and gives the time, the journal positions, the path pool, and the records
-- that the rebuilding pass makes of the live records.
pub deserialize-serialize :
    (towlower : ℕ → ℕ) (p : IndexPool) (usns : UsnMap) (now : ℕ)
    → FitsFile p usns
    → now < 2 ^ 64
    → deserialize towlower (some (serialize p usns now)) ≡ (
        rebuilt towlower p usns >>= λ r. ok (record { pool = r.0; usn_map = r.1; timestamp = now }))
unfolding deserialize deserialize_bytes serialize
deserialize-serialize towlower p usns now fits h =
    let payload = payload_bytes p usns in
    let (long, magic, version, time, count, crc, body) =
      header_fields now (count_live p.metas) (crc32 payload) payload in
    let few : count_live p.metas < 256 ^ 8 =
      omega
        (arith, count_live-length p.metas, length-live_disk_entries-le p.metas, fits.count_fits) in
    rw (
      long,
      magic,
      version,
      time,
      count,
      crc,
      body,
      le_value-le_bytes 4 k_magic (omega arith),
      le_value-le_bytes 2 k_version (omega arith),
      le_value-le_bytes 8 now h,
      le_value-le_bytes 8 (count_live p.metas) few,
      le_value-le_bytes 4 (crc32 payload) (crc32-lt payload),
      ==_refl (crc32 payload),
      parse_payload-bytes towlower p usns fits,
    )
