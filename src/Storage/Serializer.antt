-- ===== src/Storage/Serializer.antt =====
-- src/core/storage/IndexSerializer.h, IndexSerializer.cpp: the index file as a list of bytes. An
-- integer of w bytes is written lowest byte first, which takes it modulo 256 ^ w; `-` of pointers
-- becomes the length of what is left to read.
pub mod Bytes
pub mod Read
pub mod Layout
pub mod Rebuild
pub mod RoundTrip
pub mod Crc
pub mod Steps
pub mod Damage
use Prim.Native.Nat.{bit_and, bit_xor}
use winindex.Prelude.{
  ℕ, zero, suc, ◌+◌, ◌-◌, ◌*◌, ◌/◌, ◌%◌, ◌^◌, ◌≡◌, refl, Bool, true, false, not, Option, none, some,
  List, [], ◌∷◌, ◌++◌, map, leb, ltb, ◌==◌, if◌then◌else◌, length, take, drop, slice?, WString,
}
use winindex.Storage.Pool.{EntryMeta, IndexPool}
use winindex.Storage.Store.{UsnMap, usn_set, count_live}

abbrev pub k_magic : ℕ
k_magic = 0x58444957

abbrev pub k_version : ℕ
k_version = 2

-- The low `n` bytes of an integer.
unfoldable pub le_bytes : ℕ → ℕ → List ℕ
le_bytes zero v = []
le_bytes (suc n) v = v % 256 ∷ le_bytes n (v / 256)

unfoldable pub le_value : List ℕ → ℕ
le_value [] = 0
le_value (b ∷ bs) = b + 256 * le_value bs

-- One round of the table's inner loop.
crc_round : ℕ → ℕ
crc_round c = if bit_and c 1 == 1 then bit_xor 0xEDB88320 (c / 2) else c / 2

crc_rounds : ℕ → ℕ → ℕ
crc_rounds zero c = c
crc_rounds (suc j) c = crc_rounds j (crc_round c)

-- `table[i]`
crc_table : ℕ → ℕ
unfolding crc_round crc_rounds
crc_table i = crc_rounds 8 i

pub crc_loop : ℕ → List ℕ → ℕ
unfolding crc_table
crc_loop crc [] = crc
crc_loop crc (b ∷ bs) = crc_loop (bit_xor (crc_table (bit_and (bit_xor crc b) 0xFF)) (crc / 256)) bs

-- `Crc32`, as the uint32_t that it returns.
unfoldable pub crc32 : List ℕ → ℕ
unfolding crc_loop
crc32 bytes = bit_xor (crc_loop 0xFFFFFFFF bytes) 0xFFFFFFFF % 2 ^ 32

pub record DiskEntry : Type 0 where
  pub size : ℕ
  pub last_modified : ℕ
  pub attributes : ℕ
  pub path_len : ℕ
  pub name_start : ℕ

abbrev pub disk_entry : EntryMeta → DiskEntry
disk_entry m = record {
  size = m.size;
  last_modified = m.last_modified;
  attributes = m.attributes;
  path_len = m.path_len;
  name_start = m.name_start;
}

unfoldable pub disk_entry_bytes : DiskEntry → List ℕ
disk_entry_bytes d =
    le_bytes 8 d.size
    ++ (le_bytes 8 d.last_modified
        ++ (le_bytes 4 d.attributes ++ (le_bytes 2 d.path_len ++ le_bytes 2 d.name_start)))

unfoldable pub wchar_bytes : WString → List ℕ
wchar_bytes [] = []
wchar_bytes (c ∷ cs) = le_bytes 2 c ++ wchar_bytes cs

-- The disk records: of the entries that are not deleted.
abbrev pub live_disk_entries : List EntryMeta → List DiskEntry
live_disk_entries [] = []
live_disk_entries (m ∷ ms) =
    if m.deleted then live_disk_entries ms else disk_entry m ∷ live_disk_entries ms

unfoldable pub disk_entries_bytes : List DiskEntry → List ℕ
disk_entries_bytes [] = []
disk_entries_bytes (d ∷ ds) = disk_entry_bytes d ++ disk_entries_bytes ds

unfoldable pub usn_entries_bytes : UsnMap → List ℕ
usn_entries_bytes [] = []
usn_entries_bytes ((root, usn) ∷ m) =
    le_bytes 2 (length root) ++ (wchar_bytes root ++ (le_bytes 8 usn ++ usn_entries_bytes m))

unfoldable pub payload_bytes : IndexPool → UsnMap → List ℕ
payload_bytes p usns =
    le_bytes 8 (length p.path_pool)
    ++ (wchar_bytes p.path_pool
        ++ (disk_entries_bytes (live_disk_entries p.metas)
            ++ (le_bytes 4 (length usns) ++ usn_entries_bytes usns)))

unfoldable pub header_bytes : ℕ → ℕ → ℕ → List ℕ
header_bytes timestamp entry_count crc =
    le_bytes 4 k_magic
    ++ (le_bytes 2 k_version
        ++ (le_bytes 8 timestamp ++ (le_bytes 8 entry_count ++ le_bytes 4 crc)))

-- The bytes that `Serialize` writes; `now` is the system time.
unfoldable pub serialize : IndexPool → UsnMap → ℕ → List ℕ
serialize p usns now =
    header_bytes now (count_live p.metas) (crc32 (payload_bytes p usns)) ++ payload_bytes p usns
