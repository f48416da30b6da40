-- ===== src/Storage/Persist/Reload.antt =====
-- What comes back when a saved index is loaded.
use native.Mathlib.Nat.{zero-add}
use winindex.Prelude.{
  ℕ, ◌^◌, ◌<◌, ◌≡◌, refl, sym, ap, ◌∙◌, ◌≢◌, true, false, some, List, [], ◌∷◌, arith, length, take,
  WString,
}
use winindex.Storage.Pool.{EntryMeta}
use winindex.Storage.Pool.Bounds.{IsWellFormed}
use winindex.Storage.Pool.Views.{Entry, entries, path_of}
use winindex.Storage.Store.{IndexStore}
use winindex.Storage.Serializer.{live_disk_entries}
use winindex.Storage.Serializer.Read.{ok}
use winindex.Storage.Serializer.Layout.{IsLaidOutPool}
use winindex.Storage.Serializer.Rebuild.{
  cut, rebuild-cut, live_disk_entries-HasNames, NoneDeleted, cut-live_disk_entries,
}
use winindex.Storage.Serializer.RoundTrip.{FitsFile, deserialize-serialize}
use winindex.Storage.Persist.{load, save}

-- The state `t` after loading what `s` saved: the pieces of `s`'s path pool under the metadata of
-- its live entries, its journal positions, and a well-formed pool.
abbrev pub Reloads : (ℕ → ℕ) → ℕ → IndexStore → IndexStore → Type 0
Reloads towlower now s t =
    (t' : IndexStore) × (load towlower (some (save now s)) t ≡ ok t')
    × (entries t'.pool ≡ cut s.pool.path_pool 0 (live_disk_entries s.pool.metas))
    × (t'.usn_map ≡ s.usn_map)
    × IsWellFormed t'.pool

abbrev head_path : List Entry → WString
head_path [] = []
head_path (e ∷ es) = e.path

module _ (towlower : ℕ → ℕ) (now : ℕ) (s t : IndexStore) (fits : FitsFile s.pool s.usn_map)
    (laid_out : IsLaidOutPool s.pool) (now_fits : now < 2 ^ 64) where
  -- If the paths are laid out without gaps, the index fits the file's integers and the time fits
  -- 64 bits, then loading what was saved succeeds, tombstones or not. It gives back the journal
  -- positions and the metadata of the live entries in a well-formed pool, but as paths it gives
  -- the path pool cut from its start by the live path lengths.
  pub load-save : Reloads towlower now s t
  unfolding load save
  load-save =
      let p = s.pool in
      let (names, inside) = live_disk_entries-HasNames 0 (length p.path_pool) p.metas laid_out in
      let (r, e, c, b) =
        rebuild-cut towlower p.path_pool (live_disk_entries p.metas) 0 0 names (omega arith) inside
          fits.paths_fit in
      (
        record t {
          pool = record { metas = r.0; name_lower_pool = r.1; path_pool = p.path_pool };
          usn_map = s.usn_map;
        },
        rw (deserialize-serialize towlower p s.usn_map now fits now_fits) (rw e),
        c,
        refl,
        rw zero-add at b,
      )

  -- If the paths are laid out without gaps, the index fits the file's integers, the time fits 64
  -- bits and no record is a tombstone, then loading what was saved succeeds and gives back the
  -- live entries and the journal positions, in a well-formed pool.
  pub load-save_live :
      NoneDeleted s.pool.metas
      → (t' : IndexStore) × (load towlower (some (save now s)) t ≡ ok t')
        × (entries t'.pool ≡ entries s.pool)
        × (t'.usn_map ≡ s.usn_map)
        × IsWellFormed t'.pool
  load-save_live live =
      let (t', e, c, u, w) = load-save in
      (t', e, c ∙ cut-live_disk_entries s.pool.path_pool 0 _ s.pool.metas laid_out live, u, w)

  -- If the paths are laid out without gaps, the index fits the file's integers, the time fits 64
  -- bits, the first record is a tombstone, the second is live, and the path pool does not read at
  -- its start what the second path says, then loading what was saved succeeds with live entries
  -- that differ from the saved ones.
  pub load-save_tombstone :
      (m n : EntryMeta) (ms : List EntryMeta)
      → s.pool.metas ≡ m ∷ (n ∷ ms)
      → m.deleted ≡ true
      → n.deleted ≡ false
      → take n.path_len s.pool.path_pool ≢ path_of s.pool.path_pool n
      → (t' : IndexStore) × (load towlower (some (save now s)) t ≡ ok t')
        × (entries t'.pool ≢ entries s.pool)
  load-save_tombstone m n ms e dead alive differs =
      let (t', l, c, u, w) = load-save in
      let paths = s.pool.path_pool in
      let cut_head : head_path (cut paths 0 (live_disk_entries s.pool.metas))
          ≡ take n.path_len paths =
        rw e (rw (dead, alive)) in
      let live_head : head_path (entries s.pool) ≡ path_of paths n = rw e (rw (dead, alive)) in
      (t', l, λ same. differs (sym cut_head ∙ ap head_path (sym c ∙ same) ∙ live_head))
