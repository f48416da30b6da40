-- ===== src/Indexing/Indexer/Roots.antt =====
-- What the bodies of the indexer's threads leave behind: the live entries, the watchers, and the
-- index file.
use winindex.Prelude.{
  ℕ, ◌^◌, ◌<◌, ◌≡◌, refl, sym, ap, ◌∙◌, Bool, true, false, not, ◌&&◌, ◌||◌, some, List, [], ◌∷◌,
  ◌++◌, map, arith, any, filter, All-append, WString, append_assoc, append-nil,
}
use winindex.Storage.Pool.{FileEntry, IndexPool, empty_pool, add_entry, entry_meta}
use winindex.Storage.Pool.Bounds.{IsWellFormed}
use winindex.Storage.Pool.Views.{Entry, entries, as_entry}
use winindex.Storage.Store.{
  IndexStore, filetime_value, begin_write, stage_entry, end_write, add_all,
  remove_entries_under_path,
}
use winindex.Storage.Store.Spec.{Index, ends, removes_under, is_under, step, Fits}
use winindex.Storage.Store.Refine.{step-Refines}
use winindex.Storage.Serializer.Layout.{IsLaidOutPool, step-IsLaidOut}
use winindex.Storage.Serializer.Rebuild.{NoneDeleted}
use winindex.Storage.Serializer.RoundTrip.{FitsFile}
use winindex.Storage.Serializer.Read.{ok}
use winindex.Storage.Persist.{load, save}
use winindex.Storage.Persist.Reload.{load-save_live}
use winindex.Indexing.Indexer.{
  Machine, Indexer, is_root, start_watchers_for_roots, emit_status, emit_status_done,
  stop_watchers_for_roots, start_live_monitoring, drives_to_index,
}
use winindex.Indexing.Indexer.Threads.{
  scanned, stage_all, indexing_thread, remove_roots, remove_paths_thread,
}

filter-filter :
    (p q : Entry → Bool) (es : List Entry) → filter q (filter p es) ≡ filter (λ e. p e && q e) es
filter-filter p q [] = refl
filter-filter p q (e ∷ es) = ground (arith, filter-filter p q es)

filter-ext :
    (p q : Entry → Bool) (es : List Entry) → ((e : Entry) → p e ≡ q e) → filter p es ≡ filter q es
filter-ext p q [] h = refl
filter-ext p q (e ∷ es) h = rw (h e, filter-ext p q es h)

filter_none : (es : List Entry) → filter (λ e. true) es ≡ es
filter_none [] = refl
filter_none (e ∷ es) = ap (λ t. e ∷ t) (filter_none es)

nor : (a b : Bool) → (not a && not b) ≡ not (a || b)
nor true b = refl
nor false b = refl

module _ (sys : Machine) where
  abbrev pub under_any : List WString → Entry → Bool
  under_any roots e = any (λ root. is_under sys.towlower root e) roots

  remove_roots-entries :
      (roots : List WString) (s : IndexStore)
      → IsWellFormed s.pool
      → entries (remove_roots sys roots s).pool
        ≡ filter (λ e. not (under_any roots e)) (entries s.pool)
  unfolding step
  remove_roots-entries [] s w = sym (filter_none (entries s.pool))
  remove_roots-entries (root ∷ roots) s w =
      let (w', v) = step-Refines sys.towlower s (removes_under root) tt w in
      remove_roots-entries roots (remove_entries_under_path sys.towlower root s) w'
      ∙ ap (filter (λ e. not (under_any roots e))) (ap (λ (x : Index). x.live) v)
      ∙ filter-filter _ _ (entries s.pool)
      ∙ filter-ext _ _ (entries s.pool)
          (λ e. nor (is_under sys.towlower root e) (under_any roots e))

  -- On a well-formed pool, removing paths leaves exactly the live entries under none of them, in
  -- order, and exactly the watchers of the other roots; what is left is what is saved.
  pub remove_paths_thread-entries :
      (paths : List WString) (s : Indexer)
      → IsWellFormed s.store.pool
      → let s' = remove_paths_thread sys paths s in
        (entries s'.store.pool ≡ filter (λ e. not (under_any paths e)) (entries s.store.pool))
        × (s'.watchers ≡ filter (λ w. not (is_root w paths)) s.watchers)
        × (s'.index_file ≡ some (save (filetime_value sys.system_time) s'.store))
  unfolding remove_paths_thread emit_status emit_status_done stop_watchers_for_roots
  remove_paths_thread-entries paths s w = (remove_roots-entries paths s.store w, refl, refl)

  stage_all-append :
      (es : List FileEntry) (s : IndexStore)
      → stage_all sys es s ≡ record s { staging_buf = s.staging_buf ++ es }
  unfolding stage_entry
  stage_all-append [] s = λ i. record s { staging_buf = sym (append-nil s.staging_buf) i }
  stage_all-append (e ∷ es) s =
      stage_all-append es (stage_entry e s)
      ∙ (λ i. record s { staging_buf = append_assoc s.staging_buf (e ∷ []) es i })

  NoneDeleted-add_all :
      (es : List FileEntry) (p : IndexPool)
      → NoneDeleted p.metas
      → NoneDeleted (add_all sys.towlower p es).metas
  unfolding add_all add_entry entry_meta
  NoneDeleted-add_all [] p h = h
  NoneDeleted-add_all (e ∷ es) p h =
      NoneDeleted-add_all es (add_entry sys.towlower p e) (All-append _ p.metas _ h (refl, tt))

  -- The store that a complete scan leaves.
  abbrev pub rebuilt_store : (ℕ → ℕ → Bool) → Indexer → IndexStore
  rebuilt_store reads s =
      end_write sys.towlower
        (record s.store { staging_buf = scanned sys reads (drives_to_index sys) })

  -- The entries that a complete scan finds fit the pool.
  abbrev pub ScanFits : (ℕ → ℕ → Bool) → Indexer → Type 0
  ScanFits reads s =
      Fits sys.towlower (record s.store { staging_buf = scanned sys reads (drives_to_index sys) })
        ends

  rebuilt_store-facts :
      (reads : ℕ → ℕ → Bool) (s : Indexer)
      → ScanFits reads s
      → IsWellFormed (rebuilt_store reads s).pool
        × (entries (rebuilt_store reads s).pool
            ≡ map as_entry (scanned sys reads (drives_to_index sys)))
        × IsLaidOutPool (rebuilt_store reads s).pool
        × NoneDeleted (rebuilt_store reads s).pool.metas
  unfolding step end_write empty_pool
  rebuilt_store-facts reads s fits =
      let s0 : IndexStore = record (s.store) {
        pool = empty_pool;
        staging_buf = scanned sys reads (drives_to_index sys);
      } in
      let (w, v) = step-Refines sys.towlower s0 ends fits tt in
      (
        w,
        ap (λ (x : Index). x.live) v,
        step-IsLaidOut sys.towlower s0 ends fits refl,
        NoneDeleted-add_all (scanned sys reads (drives_to_index sys)) empty_pool tt,
      )

  indexing_thread-store :
      (seen : ℕ → Bool) (reads : ℕ → ℕ → Bool) (s : Indexer)
      → seen 0 ≡ false
      → ((indexing_thread sys seen reads s).store ≡ rebuilt_store reads s)
        × ((indexing_thread sys seen reads s).index_file
            ≡ some (save (filetime_value sys.system_time) (rebuilt_store reads s)))
  unfolding indexing_thread emit_status emit_status_done start_live_monitoring
      start_watchers_for_roots begin_write
  indexing_thread-store seen reads s calm =
      let staged =
        stage_all-append (scanned sys reads (drives_to_index sys)) (begin_write s.store) in
      rw (calm, staged) (refl, refl)

  -- An indexing run whose one read of the cancel flag before writing gives false, whose scanned
  -- entries fit the pool, whose result fits the file's integers, and that saves at a 64-bit time
  -- leaves exactly the scanned entries, drive by drive, in a well-formed pool; the file that it
  -- saves loads back, over any other state, to the same entries, the journal positions and a
  -- well-formed pool.
  pub indexing_thread-reload :
      (seen : ℕ → Bool) (reads : ℕ → ℕ → Bool) (s : Indexer) (t : IndexStore)
      → seen 0 ≡ false
      → ScanFits reads s
      → FitsFile (rebuilt_store reads s).pool s.store.usn_map
      → filetime_value sys.system_time < 2 ^ 64
      → let s' = indexing_thread sys seen reads s in
        IsWellFormed s'.store.pool
        × (entries s'.store.pool ≡ map as_entry (scanned sys reads (drives_to_index sys)))
        × ((t' : IndexStore) × (load sys.towlower s'.index_file t ≡ ok t')
            × (entries t'.pool ≡ map as_entry (scanned sys reads (drives_to_index sys)))
            × (t'.usn_map ≡ s.store.usn_map)
            × IsWellFormed t'.pool)
  unfolding end_write
  indexing_thread-reload seen reads s t calm fits file now =
      let (store_is, file_is) = indexing_thread-store seen reads s calm in
      let (w, e, laid_out, alive) = rebuilt_store-facts reads s fits in
      let (t', l, e', u, w') =
        load-save_live sys.towlower (filetime_value sys.system_time) (rebuilt_store reads s) t file
          laid_out now alive in
      rw (store_is, file_is) (w, e, (t', l, e' ∙ e, u, w'))
