-- ===== src/Tests/Damage.antt =====
-- A damaged index file.
use winindex.Prelude.{◌≡◌, ◌≢◌, refl, length, some, ℕ, List, [], ◌∷◌, ◌++◌, arith, codes}
use Prim.Native.Nat.{bit_xor}
use winindex.Storage.Serializer.{
  crc32, le_bytes, le_value, wchar_bytes, disk_entry_bytes, disk_entries_bytes, usn_entries_bytes,
  header_bytes, payload_bytes,
}
use winindex.Storage.Serializer.Read.{
  Loaded, ok, rejected, read_le, read_wchars, read_disk_entry, read_disk_entries, read_usns,
  read_usn_map, read_name, rebuild, parse_entries, parse_payload, deserialize_bytes, deserialize,
}
use winindex.Storage.Store.{usn_set}
use winindex.Storage.Serializer.Crc.{divide, message_bits, crc32-divide}
use winindex.Storage.Serializer.Damage.{deserialize-damaged}
use winindex.Tests.Storage.{ascii_lower, two_files}

-- The payload of a saved index: its first bytes, four in the first path, and the rest.
abbrev front : List ℕ
front = 10 ∷ 0 ∷ 0 ∷ 0 ∷ 0 ∷ 0 ∷ 0 ∷ 0 ∷ 67 ∷ 0 ∷ []

abbrev window : List ℕ
window = 58 ∷ 0 ∷ 92 ∷ 0 ∷ []

abbrev back : List ℕ
back =
    65 ∷ 0 ∷ 68 ∷ 0 ∷ 58 ∷ 0 ∷ 92 ∷ 0 ∷ 98 ∷ 0 ∷ 92 ∷ 0 ∷ 67 ∷ 0 ∷ 3 ∷ 0 ∷ 0 ∷ 0 ∷ 0 ∷ 0 ∷ 0 ∷ 0 ∷ 7
    ∷ 0 ∷ 0 ∷ 0 ∷ 0 ∷ 0 ∷ 0 ∷ 0 ∷ 32 ∷ 0 ∷ 0 ∷ 0 ∷ 4 ∷ 0 ∷ 3 ∷ 0 ∷ 5 ∷ 0 ∷ 0 ∷ 0 ∷ 0 ∷ 0 ∷ 0 ∷ 0 ∷ 8
    ∷ 0 ∷ 0 ∷ 0 ∷ 0 ∷ 0 ∷ 0 ∷ 0 ∷ 32 ∷ 0 ∷ 0 ∷ 0 ∷ 6 ∷ 0 ∷ 5 ∷ 0 ∷ 1 ∷ 0 ∷ 0 ∷ 0 ∷ 3 ∷ 0 ∷ 67 ∷ 0
    ∷ 58 ∷ 0 ∷ 92 ∷ 0 ∷ 9 ∷ 0 ∷ 0 ∷ 0 ∷ 0 ∷ 0 ∷ 0 ∷ 0 ∷ []

abbrev damaged : List ℕ
damaged = 58 ∷ 1 ∷ 0 ∷ 0 ∷ []

abbrev header : List ℕ
header = header_bytes 100 2 (crc32 (front ++ (window ++ back)))

payload_written : payload_bytes two_files ((codes "C:\\", 9) ∷ []) ≡ front ++ (window ++ back)
unfolding payload_bytes le_bytes wchar_bytes disk_entry_bytes disk_entries_bytes usn_entries_bytes
payload_written = refl

abbrev found : Loaded
found = record { pool = two_files; usn_map = (codes "C:\\", 9) ∷ []; timestamp = 100 }

loads : deserialize ascii_lower (some (header ++ (front ++ (window ++ back)))) ≡ ok found
unfolding deserialize deserialize_bytes parse_payload parse_entries rebuild read_name read_usn_map
    read_usns read_disk_entries read_disk_entry read_wchars read_le le_value usn_set header_bytes
    crc32 le_bytes
loads = refl

length_header : length header ≡ 26
unfolding header_bytes le_bytes
length_header = refl

differ : window ≢ damaged
differ e = cc e

deserialize-damaged_example :
    deserialize ascii_lower (some (header ++ (front ++ (damaged ++ back)))) ≡ rejected
deserialize-damaged_example =
    deserialize-damaged ascii_lower header front window damaged back length_header (omega arith)
      (omega arith) (omega arith) (omega arith) (omega arith) (omega arith) differ loads

crc32-divide_example :
    crc32 (front ++ (window ++ back))
    ≡ bit_xor 0xFFFFFFFF (divide 0xFFFFFFFF (message_bits (front ++ (window ++ back))))
crc32-divide_example = crc32-divide (front ++ (window ++ back)) (omega arith)
