-- ===== src/Storage/Serializer/Read.antt =====
-- src/core/storage/IndexSerializer.cpp: `Deserialize` on the bytes of the file. Its output arguments
-- count only where it returns true, which is the outcome `ok`.
use winindex.Prelude.{
  ℕ, zero, suc, ◌+◌, ◌-◌, ◌*◌, ◌/◌, ◌%◌, ◌^◌, Bool, true, false, not, Option, none, some, List, [],
  ◌∷◌, ◌++◌, map, leb, ltb, ◌==◌, if◌then◌else◌, length, take, drop, slice?, WString,
}
use winindex.Storage.Pool.{EntryMeta, IndexPool}
use winindex.Storage.Store.{UsnMap, usn_set}
use winindex.Storage.Serializer.{DiskEntry, le_value, crc32, k_magic, k_version}

-- `rejected` is `return false`. `fault` is what the source does not define: a read outside a
-- buffer, or a vector asked for more than its greatest size.
pub data Outcome {ℓ} (A : Type ℓ) : Type ℓ where
  ok : A → Outcome A
  rejected : Outcome A
  fault : Outcome A

infixl 5 ◌>>=◌ ◌>>◌
abbrev pub ◌>>=◌ {ℓ κ} : {A : Type ℓ} {B : Type κ} → Outcome A → (A → Outcome B) → Outcome B
ok a >>= f = f a
rejected >>= f = rejected
fault >>= f = fault

abbrev pub ◌>>◌ {ℓ} : {B : Type ℓ} → Outcome (Unit {0}) → Outcome B → Outcome B
m >> k = m >>= λ _. k

-- `if (test) return false;`
abbrev pub reject_if : Bool → Outcome (Unit {0})
reject_if true = rejected
reject_if false = ok tt

abbrev pub fault_if : Bool → Outcome (Unit {0})
fault_if true = fault
fault_if false = ok tt

abbrev pub or_fault {ℓ} : {A : Type ℓ} → Option A → Outcome A
or_fault none = fault
or_fault (some a) = ok a

-- `readU16`, `readU32`, `readU64` and `memcpy`: `n` bytes as an integer, and what is left.
unfoldable pub read_le : ℕ → List ℕ → Outcome (ℕ × List ℕ)
read_le n bs = if leb n (length bs) then ok (le_value (take n bs), drop n bs) else fault

unfoldable pub read_wchars : ℕ → List ℕ → WString
read_wchars zero bs = []
read_wchars (suc n) bs = le_value (take 2 bs) ∷ read_wchars n (drop 2 bs)

unfoldable pub read_disk_entry : List ℕ → Outcome (DiskEntry × List ℕ)
read_disk_entry bs = do
  (size, bs) ← read_le 8 bs
  (last_modified, bs) ← read_le 8 bs
  (attributes, bs) ← read_le 4 bs
  (path_len, bs) ← read_le 2 bs
  (name_start, bs) ← read_le 2 bs
  ok (
    record {
      size = size;
      last_modified = last_modified;
      attributes = attributes;
      path_len = path_len;
      name_start = name_start;
    },
    bs,
  )

unfoldable pub read_disk_entries : ℕ → List ℕ → Outcome (List DiskEntry × List ℕ)
read_disk_entries zero bs = ok ([], bs)
read_disk_entries (suc n) bs = do
  (d, bs) ← read_disk_entry bs
  (ds, bs) ← read_disk_entries n bs
  ok (d ∷ ds, bs)

-- The USN map: the loop stops where a record is cut off.
unfoldable pub read_usns : ℕ → List ℕ → UsnMap → UsnMap
read_usns zero bs m = m
read_usns (suc n) bs m =
    let root_len = le_value (take 2 bs) in
    let rest_bytes = drop 2 bs in
    let root = read_wchars root_len rest_bytes in
    let usn = le_value (take 8 (drop (root_len * 2) rest_bytes)) in
    let next = read_usns n (drop (root_len * 2 + 8) rest_bytes) (usn_set root usn m) in
    if ltb (length bs) 2 then m else if ltb (length rest_bytes) (root_len * 2 + 8) then m else next

unfoldable pub read_usn_map : List ℕ → UsnMap
read_usn_map bs =
    let usns = read_usns (le_value (take 4 bs)) (drop 4 bs) [] in
    if leb 4 (length bs) then usns else []

pub record Loaded : Type 0 where
  pub pool : IndexPool
  pub usn_map : UsnMap
  pub timestamp : ℕ

-- The characters of a name; a name of length 0 reads nothing.
unfoldable pub read_name : Option WString → ℕ → Outcome WString
read_name view zero = ok []
read_name view (suc n) = or_fault view

module _ (towlower : ℕ → ℕ) where
  -- The two passes over the disk records: the offsets are running sums, of type uint32_t for the
  -- paths and size_t for the names, and the lowercased names are rebuilt from the paths.
  unfoldable pub rebuild : WString → ℕ → ℕ → List DiskEntry → Outcome (List EntryMeta × WString)
  rebuild paths path_offset lower_offset [] = ok ([], [])
  rebuild paths path_offset lower_offset (d ∷ ds) = do
    let name_len = (d.path_len + 2 ^ 16 - d.name_start) % 2 ^ 16
    name ← read_name (slice? paths (path_offset + d.name_start) name_len) name_len
    (ms, lowers) ← rebuild paths ((path_offset + d.path_len) % 2 ^ 32) (lower_offset + name_len) ds
    let m : EntryMeta = record {
      size = d.size;
      last_modified = d.last_modified;
      path_offset = path_offset;
      name_lower_offset = lower_offset % 2 ^ 32;
      attributes = d.attributes;
      path_len = d.path_len;
      name_lower_len = name_len;
      name_start = d.name_start;
      deleted = false;
    }
    ok (m ∷ ms, map towlower name ++ lowers)

  -- From the entry records on. `reserve` throws beyond the greatest size of a vector of 40-byte
  -- records; the size of the records wraps like a size_t.
  unfoldable pub parse_entries : WString → ℕ → List ℕ → Outcome (IndexPool × UsnMap)
  parse_entries paths entry_count bs = do
    fault_if (ltb ((2 ^ 63 - 1) / 40) entry_count)
    reject_if (ltb (length bs) (24 * entry_count % 2 ^ 64))
    (ds, left) ← read_disk_entries entry_count bs
    (ms, lowers) ← rebuild paths 0 0 ds
    ok (record { metas = ms; name_lower_pool = lowers; path_pool = paths }, read_usn_map left)

  -- The payload behind the CRC check. The byte size of the path pool wraps like a size_t, and
  -- `resize` throws beyond the greatest size of a vector of 2-byte characters.
  unfoldable pub parse_payload : ℕ → List ℕ → Outcome (IndexPool × UsnMap)
  parse_payload entry_count payload = do
    reject_if (ltb (length payload) 8)
    let path_pool_size = le_value (take 8 payload)
    let bs = drop 8 payload
    let path_pool_bytes = path_pool_size * 2 % 2 ^ 64
    reject_if (ltb (length bs) path_pool_bytes)
    fault_if (ltb ((2 ^ 63 - 1) / 2) path_pool_size)
    parse_entries (read_wchars path_pool_size bs) entry_count (drop path_pool_bytes bs)

  -- A file that is there, by its bytes. The header has 26: 4 magic, 2 version, 8 timestamp, 8
  -- entry count and 4 CRC.
  unfoldable pub deserialize_bytes : List ℕ → Outcome Loaded
  deserialize_bytes file = do
    reject_if (ltb (length file) 26)
    reject_if (not (le_value (take 4 file) == k_magic))
    reject_if (not (le_value (take 2 (drop 4 file)) == k_version))
    let payload = drop 26 file
    reject_if (not (crc32 payload == le_value (take 4 (drop 22 file))))
    (pool, usns) ← parse_payload (le_value (take 8 (drop 14 file))) payload
    ok (record { pool = pool; usn_map = usns; timestamp = le_value (take 8 (drop 6 file)) })

  -- `none` is a file that cannot be opened.
  unfoldable pub deserialize : Option (List ℕ) → Outcome Loaded
  deserialize none = rejected
  deserialize (some file) = deserialize_bytes file
