-- ===== src/Storage/Persist.antt =====
-- src/core/storage/IndexStore.cpp: `Load` and `Save`, over the bytes of the index file.
pub mod Reload
use winindex.Prelude.{ℕ, Option, List, []}
use winindex.Storage.Pool.{clear}
use winindex.Storage.Store.{IndexStore}
use winindex.Storage.Serializer.{serialize}
use winindex.Storage.Serializer.Read.{Outcome, ok, rejected, fault, Loaded, deserialize}

unfoldable pub install : Outcome Loaded → IndexStore → Outcome IndexStore
install (ok l) s = ok (record s { pool = l.pool; usn_map = l.usn_map })
install rejected s = ok (record s { pool = clear s.pool; usn_map = [] })
install fault s = fault

unfoldable pub load : (ℕ → ℕ) → Option (List ℕ) → IndexStore → Outcome IndexStore
unfolding install
load towlower file s = install (deserialize towlower file) s

-- The bytes that `Save` writes to the index file, at the system time `now`.
unfoldable pub save : ℕ → IndexStore → List ℕ
save now s = serialize s.pool s.usn_map now
