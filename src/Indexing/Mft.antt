-- ===== src/Indexing/Mft.antt =====
-- src/core/indexer/MftScanner.h, MftScanner.cpp: the scan of a volume by its master file table. What
-- the reads of the table give, the order in which the std::unordered_map is walked, and what
-- each read of the cancel flag gives are arguments.
pub mod Resolve
pub mod Emits
use winindex.Prelude.{
  ℕ, zero, suc, ◌+◌, ◌/◌, ◌%◌, ◌≡◌, refl, Bool, true, false, not, ◌||◌, Option, none, some, List,
  [], ◌∷◌, ◌++◌, ◌==◌, any, if◌then◌else◌, WString, backslash, wstr_eq, starts_with, is_empty,
}
use winindex.Storage.Pool.{FileEntry}
use winindex.Storage.Store.{lower}
use winindex.Indexing.FindFile.{with_backslash}

-- USN_RECORD
pub record MftRecord : Type 0 where
  pub file_reference_number : ℕ
  pub parent_file_reference_number : ℕ
  pub file_attributes : ℕ
  pub file_name : WString

pub record MftEntry : Type 0 where
  pub name : WString
  pub parent_frn : ℕ
  pub size : ℕ
  pub last_modified : ℕ
  pub attributes : ℕ
  pub is_directory : Bool

abbrev pub Entries : Type 0
Entries = List (ℕ × MftEntry)

-- The records of each read of the table; `can_open` is whether the volume can be opened.
pub record MftVolume : Type 0 where
  pub towlower : ℕ → ℕ
  pub can_open : Bool
  pub reads : List (List MftRecord)
  pub order : Entries → Entries
  pub excluded_paths : List WString

unfoldable pub entry_of : MftRecord → MftEntry
entry_of r = record {
  name = r.file_name;
  parent_frn = r.parent_file_reference_number;
  size = 0;
  last_modified = 0;
  attributes = r.file_attributes;
  is_directory = r.file_attributes / 16 % 2 == 1;
}

-- `entries[frn] = entry`
abbrev pub insert_entry : ℕ → MftEntry → Entries → Entries
insert_entry frn entry [] = (frn, entry) ∷ []
insert_entry frn entry ((k, e) ∷ es) =
    if k == frn then (frn, entry) ∷ es else (k, e) ∷ insert_entry frn entry es

abbrev pub find_entry : ℕ → Entries → Option MftEntry
find_entry frn [] = none
find_entry frn ((k, e) ∷ es) = if k == frn then some e else find_entry frn es

-- The calls of `onFile` and of `onProgress`, and the reads of the cancel flag.
pub record MftScan : Type 0 where
  pub files : List FileEntry
  pub progress : List (ℕ × WString)
  pub reads : ℕ

abbrev pub start_scan : MftScan
start_scan = record { files = []; progress = []; reads = 0 }

abbrev pub tick : MftScan → MftScan
tick s = record s { reads = s.reads + 1 }

-- The map and the count of the records with a name.
pub record MftTable : Type 0 where
  pub files_found : ℕ
  pub entries : Entries

abbrev pub start_table : MftTable
start_table = record { files_found = 0; entries = [] }

unfoldable pub add_record : MftRecord → MftTable → MftTable
add_record r t = record {
  files_found = t.files_found + 1;
  entries = insert_entry r.file_reference_number (entry_of r) t.entries;
}

abbrev pub report : WString → MftTable → MftScan → MftScan
report root t s =
    if t.files_found % 10000 == 0
    then record s { progress = s.progress ++ (t.files_found, root) ∷ [] }
    else s

-- The inner loop over the records of a read; those with no name are passed over.
unfoldable pub add_records : WString → List MftRecord → MftTable × MftScan → MftTable × MftScan
add_records root [] (t, s) = (t, s)
add_records root (r ∷ rs) (t, s) =
    let next = add_record r t in
    add_records root rs (if is_empty r.file_name then (t, s) else (next, report root next s))

abbrev pub below : Option WString → WString → Option WString
below none name = none
below (some dir) name = some ((dir ++ name) ++ backslash ∷ [])

-- `resolvePath` on fuel that counts its calls; `none` is a call that has not returned.
unfoldable pub resolve_path : Entries → WString → ℕ → ℕ → Option WString
resolve_path es root zero frn = none
resolve_path es root (suc fuel) frn = elim (find_entry frn es) [
  | none ↦ some root
  | some e ↦
      let parent = resolve_path es root fuel e.parent_frn in
      if e.parent_frn == frn then some root else below parent e.name
]

module _ (vol : MftVolume) where
  unfoldable pub is_excluded_path : WString → Bool
  is_excluded_path path =
      let path_lower = lower vol.towlower path in
      any
        (λ excl.
          let excl_lower = lower vol.towlower excl in
          wstr_eq path_lower excl_lower || starts_with path_lower (with_backslash excl_lower))
        vol.excluded_paths

  abbrev pub emitted : WString → MftEntry → FileEntry
  emitted dir e = record {
    name = e.name;
    name_lower = lower vol.towlower e.name;
    path = dir ++ e.name;
    size = e.size;
    last_modified = e.last_modified;
    attributes = e.attributes;
  }

  unfoldable pub emit_file : WString → MftEntry → MftScan → MftScan
  emit_file dir e s =
      if is_excluded_path (dir ++ e.name)
      then s
      else record s { files = s.files ++ emitted dir e ∷ [] }

  module _ (seen : ℕ → Bool) where
    -- The loop over the reads of the table; it ends when a read fails.
    unfoldable pub read_table :
        WString → List (List MftRecord) → MftTable × MftScan → MftTable × MftScan
    unfolding add_records
    read_table root [] (t, s) = (t, tick s)
    read_table root (rs ∷ rss) (t, s) = elim (seen s.reads) [
      | true ↦ (t, tick s)
      | false ↦ read_table root rss (add_records root rs (t, tick s))
    ]

    -- The loop over the map.
    unfoldable pub emit_entries : Entries → WString → ℕ → Entries → MftScan → Option MftScan
    unfolding resolve_path emit_file
    emit_entries es root fuel [] s = some s
    emit_entries es root fuel ((frn, e) ∷ left) s = elim (seen s.reads) [
      | true ↦ some (tick s)
      | false ↦ elim e.is_directory [
        | true ↦ emit_entries es root fuel left (tick s)
        | false ↦ elim (resolve_path es root fuel e.parent_frn) [
          | none ↦ none
          | some dir ↦ emit_entries es root fuel left (emit_file dir e (tick s))
        ]
      ]
    ]

    abbrev pub scan_opened : WString → ℕ → MftScan → Option MftScan
    scan_opened root fuel s =
        let (t, s') = read_table root vol.reads (start_table, s) in
        emit_entries t.entries root fuel (vol.order t.entries) s'

    unfoldable pub scan_volume : WString → ℕ → MftScan → Option MftScan
    unfolding read_table emit_entries
    scan_volume root fuel s = if vol.can_open then scan_opened root fuel s else some s

-- The loop of `Scan` over the roots and their volumes.
unfoldable pub scan_volumes :
    (WString → MftVolume) → (ℕ → Bool) → ℕ → List WString → MftScan → Option MftScan
unfolding scan_volume
scan_volumes vols seen fuel [] s = some s
scan_volumes vols seen fuel (root ∷ roots) s = elim (seen s.reads) [
  | true ↦ some (tick s)
  | false ↦ elim (scan_volume (vols root) seen root fuel (tick s)) [
    | none ↦ none
    | some s' ↦ scan_volumes vols seen fuel roots s'
  ]
]
