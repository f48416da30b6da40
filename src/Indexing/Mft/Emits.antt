-- ===== src/Indexing/Mft/Emits.antt =====
-- What a scan of a volume emits, and the map that it is read from.
use winindex.Prelude.{
  ℕ, ◌≡◌, refl, sym, ap, ◌∙◌, Bool, true, false, Option, some, List, [], ◌∷◌, ◌++◌, ◌==◌,
  if◌then◌else◌, WString, arith, ◌<◌, Bool-cases, inl, inr, append-nil, append_assoc, is_empty,
}
use winindex.Storage.Pool.{FileEntry}
use winindex.Indexing.Mft.{
  MftRecord, MftEntry, Entries, MftVolume, MftScan, MftTable, start_table, tick, entry_of,
  insert_entry, find_entry, add_record, report, add_records, is_excluded_path, resolve_path,
  emitted, emit_file, read_table, emit_entries, scan_opened, scan_volume,
}
use winindex.Indexing.Mft.Resolve.{IsPaths, IsForest, resolve_path-path}

-- The map after some records, those with no name passed over.
abbrev pub add_named : List MftRecord → Entries → Entries
add_named [] es = es
add_named (r ∷ rs) es =
    add_named rs
      (if is_empty r.file_name then es else insert_entry r.file_reference_number (entry_of r) es)

abbrev pub add_reads : List (List MftRecord) → Entries → Entries
add_reads [] es = es
add_reads (rs ∷ rss) es = add_reads rss (add_named rs es)

-- The last named record of a reference, or what was there before.
abbrev pub last_record : ℕ → List MftRecord → Option MftEntry → Option MftEntry
last_record frn [] before = before
last_record frn (r ∷ rs) before = last_record frn rs (
    if is_empty r.file_name
    then before
    else if r.file_reference_number == frn
    then some (entry_of r)
    else before)

find_entry-insert_entry :
    (frn k : ℕ) (e : MftEntry) (es : Entries)
    → find_entry frn (insert_entry k e es) ≡ (if k == frn then some e else find_entry frn es)
find_entry-insert_entry frn k e [] = refl
find_entry-insert_entry frn k e ((k', e') ∷ es) = ground (arith, find_entry-insert_entry frn k e es)

-- The last record of a reference is what the map has.
find_entry-add_named :
    (frn : ℕ) (rs : List MftRecord) (es : Entries)
    → find_entry frn (add_named rs es) ≡ last_record frn rs (find_entry frn es)
find_entry-add_named frn [] es = refl
find_entry-add_named frn (r ∷ rs) es = elim (Bool-cases (is_empty r.file_name)) [
  | inl unnamed ↦ rw unnamed (find_entry-add_named frn rs es)
  | inr named ↦
      let es' = insert_entry r.file_reference_number (entry_of r) es in
      rw named (
        find_entry-add_named frn rs es'
        ∙ ap (last_record frn rs)
            (find_entry-insert_entry frn r.file_reference_number (entry_of r) es))
]

report-files : (root : WString) (t : MftTable) (s : MftScan) → (report root t s).files ≡ s.files
report-files root t s = ground arith

add_records-add_named :
    (root : WString) (rs : List MftRecord) (t : MftTable) (s : MftScan)
    → ((add_records root rs (t, s)).0.entries ≡ add_named rs t.entries)
      × ((add_records root rs (t, s)).1.files ≡ s.files)
unfolding add_records add_record
add_records-add_named root [] t s = (refl, refl)
add_records-add_named root (r ∷ rs) t s = elim (Bool-cases (is_empty r.file_name)) [
  | inl unnamed ↦ rw (unnamed, add_records) (add_records-add_named root rs t s)
  | inr named ↦
      let t' = add_record r t in
      let (p, q) = add_records-add_named root rs t' (report root t' s) in
      rw (named, add_records) (p, q ∙ report-files root t' s)
]

-- After the records of a read are put into the map, it has for each reference number the last of
-- the records with that number and a name, and where there is none what it had before.
pub find_entry-add_records :
    (root : WString) (frn : ℕ) (rs : List MftRecord) (t : MftTable) (s : MftScan)
    → find_entry frn (add_records root rs (t, s)).0.entries
      ≡ last_record frn rs (find_entry frn t.entries)
find_entry-add_records root frn rs t s =
    ap (find_entry frn) (add_records-add_named root rs t s).0
    ∙ find_entry-add_named frn rs t.entries

-- The files of the entries, each under the path of its parent.
abbrev pub files_listed : MftVolume → (ℕ → WString) → Entries → List FileEntry
files_listed vol path [] = []
files_listed vol path ((frn, e) ∷ es) =
    if e.is_directory
    then files_listed vol path es
    else if is_excluded_path vol (path e.parent_frn ++ e.name)
    then files_listed vol path es
    else emitted vol (path e.parent_frn) e ∷ files_listed vol path es

module _ (vol : MftVolume) (seen : ℕ → Bool) (calm : (k : ℕ) → seen k ≡ false)
    (root : WString) where
  read_table-add_reads :
      (rss : List (List MftRecord)) (t : MftTable) (s : MftScan)
      → ((read_table vol seen root rss (t, s)).0.entries ≡ add_reads rss t.entries)
        × ((read_table vol seen root rss (t, s)).1.files ≡ s.files)
  unfolding read_table
  read_table-add_reads [] t s = (refl, refl)
  read_table-add_reads (rs ∷ rss) t s =
      let next = add_records root rs (t, tick s) in
      let (p, q) = add_records-add_named root rs t (tick s) in
      let (p', q') = read_table-add_reads rss next.0 next.1 in
      rw (calm s.reads, read_table) (p' ∙ ap (add_reads rss) p, q' ∙ q)

  emit_file-files :
      (dir : WString) (e : MftEntry) (s : MftScan)
      → is_excluded_path vol (dir ++ e.name) ≡ false
      → (emit_file vol dir e s).files ≡ s.files ++ emitted vol dir e ∷ []
  unfolding emit_file
  emit_file-files dir e s kept = rw kept

  emit_entries-listed :
      (es : Entries) (path : ℕ → WString) (fuel : ℕ)
      → ((frn : ℕ) → resolve_path es root fuel frn ≡ some (path frn))
      → (left : Entries) (s : MftScan)
      → (s' : MftScan) × (emit_entries vol seen es root fuel left s ≡ some s')
        × (s'.files ≡ s.files ++ files_listed vol path left)
  unfolding emit_entries emit_file
  emit_entries-listed es path fuel resolved [] s = (s, refl, sym (append-nil s.files))
  emit_entries-listed es path fuel resolved ((frn, e) ∷ left) s = elim (Bool-cases e.is_directory) [
    | inl dir ↦
        let (s', p, q) = emit_entries-listed es path fuel resolved left (tick s) in
        (s', rw (calm s.reads, emit_entries, dir) p, rw dir q)
    | inr file ↦
        let full = path e.parent_frn ++ e.name in
        elim (Bool-cases (is_excluded_path vol full)) [
          | inl excluded ↦
              let (s', p, q) = emit_entries-listed es path fuel resolved left (tick s) in
              (
                s',
                rw (calm s.reads, emit_entries, file, resolved e.parent_frn, excluded) p,
                rw (file, excluded) q,
              )
          | inr kept ↦
              let (s', p, q) =
                emit_entries-listed es path fuel resolved left
                  (emit_file vol (path e.parent_frn) e (tick s)) in
              (
                s',
                rw (calm s.reads, emit_entries, file, resolved e.parent_frn) p,
                q
                    ∙ ap (λ (l : List FileEntry). l ++ files_listed vol path left)
                        (emit_file-files (path e.parent_frn) e (tick s) kept)
                    ∙ append_assoc s.files (emitted vol (path e.parent_frn) e ∷ [])
                        (files_listed vol path left)
                    ∙ ap (λ (l : List FileEntry). s.files ++ l)
                        {y = files_listed vol path ((frn, e) ∷ left)} (rw (file, kept)),
              )
        ]
  ]

  -- If the volume opens, no read of the cancel flag gives true, the parent references of the
  -- table lead to less deep entries, and the fuel exceeds every depth, then the scan of a volume
  -- ends and emits exactly the entries that are no directories and whose path is not excluded, in
  -- the order of the map, each under the path that its chain of parents spells from the root.
  pub scan_volume-listed :
      (path : ℕ → WString) (depth : ℕ → ℕ) (fuel : ℕ) (s : MftScan)
      → vol.can_open ≡ true
      → let es = add_reads vol.reads [] in
        IsPaths es root path
        → IsForest es depth
        → ((frn : ℕ) → depth frn < fuel)
        → (s' : MftScan) × (scan_volume vol seen root fuel s ≡ some s')
          × (s'.files ≡ s.files ++ files_listed vol path (vol.order es))
  unfolding scan_volume
  scan_volume-listed path depth fuel s opened paths forest deep =
      let es = add_reads vol.reads [] in
      let (p, q) = read_table-add_reads vol.reads start_table s in
      let (s', p', q') =
        emit_entries-listed es path fuel
          (λ frn. resolve_path-path es root path depth paths forest fuel frn (deep frn))
          (vol.order es) (read_table vol seen root vol.reads (start_table, s)).1 in
      let scanned = scan_opened vol seen root fuel s in
      let step : scan_volume vol seen root fuel s ≡ scanned =
        ap (λ b. if b then scanned else some s) opened in
      (s', step ∙ rw p p', q' ∙ ap (λ t. t ++ files_listed vol path (vol.order es)) q)
