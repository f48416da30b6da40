-- ===== src/Storage/Store/Age.antt =====
-- The age of the index file: when `IsIndexValid` accepts it and what `GetIndexAgeSeconds` reports;
-- and the journal positions, which are read back as written.
use winindex.Prelude.{
  ℕ, ◌+◌, ◌*◌, ◌^◌, ◌≤◌, ◌<◌, ◌≡◌, refl, ◌≢◌, true, some, [], ◌∷◌, arith, if◌then◌else◌, WString,
  wstr_eq, wstr_eq_iff,
}
use winindex.Storage.Store.{
  IndexStore, UsnMap, FileTime, filetime_value, is_index_valid, get_index_age_seconds, usn_set,
  usn_get, get_saved_usn, set_saved_usn,
}

-- A file stamped in the future is stale for every interval other than 0 that, in units of 100 ns
-- and added to the file's lead, is at most 2^64, although `GetIndexAgeSeconds` reports the age 0
-- for it.
pub future_is_stale :
    (interval : ℕ) (written now : FileTime)
    → filetime_value now < filetime_value written
    → filetime_value written < 2 ^ 64
    → interval ≢ 0
    → filetime_value written + interval * 36000000000 ≤ filetime_value now + 2 ^ 64
    → (is_index_valid interval (some written) now ≢ true)
      × (get_index_age_seconds (some written) now ≡ 0)
unfolding is_index_valid get_index_age_seconds
future_is_stale interval written now ahead fits pos near = ground arith

usn_get-usn_set :
    (root key : WString) (usn : ℕ) (m : UsnMap)
    → usn_get key (usn_set root usn m) ≡ (if wstr_eq root key then usn else usn_get key m)
unfolding usn_get usn_set
usn_get-usn_set root key usn [] = refl
usn_get-usn_set root key usn ((r, u) ∷ m) = ground (
  arith,
  wstr_eq_iff r root,
  wstr_eq_iff r key,
  wstr_eq_iff root key,
  usn_get-usn_set root key usn m,
)

-- The journal position of a root reads back as it was last set, and setting it changes neither
-- the position of another root nor the pool.
pub get_saved_usn-set_saved_usn :
    (root key : WString) (usn : ℕ) (s : IndexStore)
    → (get_saved_usn key (set_saved_usn root usn s)
        ≡ (if wstr_eq root key then usn else get_saved_usn key s))
      × ((set_saved_usn root usn s).pool ≡ s.pool)
unfolding get_saved_usn set_saved_usn
get_saved_usn-set_saved_usn root key usn s = (usn_get-usn_set root key usn s.usn_map, refl)
