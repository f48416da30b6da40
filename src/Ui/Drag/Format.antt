-- ===== src/Ui/Drag/Format.antt =====
-- What the data object of a drag offers is what it gives.
use winindex.Prelude.{◌≡◌, refl, true, Option, none, some, ◌==◌, Bool-cases, inl, inr}
use winindex.Ui.Drag.{s_ok, FormatEtc, has_hglobal, DropDataObject, get_data, query_get_data}

-- Where memory can be allocated, `GetData` gives the list of paths exactly for the formats that
-- `QueryGetData` accepts, and answers as it does for the others.
pub get_data-query_get_data :
    (obj : DropDataObject) (fe : Option FormatEtc)
    → ((get_data true obj fe).0 ≡ query_get_data fe)
      × ((query_get_data fe ≡ s_ok) → (get_data true obj fe).1 ≡ some obj.paths)
unfolding get_data query_get_data
get_data-query_get_data obj none = (refl, λ h. cc)
get_data-query_get_data obj (some fe) = elim (Bool-cases (fe.cf_format == 15)) [
  | inl drop ↦ elim (Bool-cases (has_hglobal fe)) [
    | inl memory ↦ rw (drop, memory) (refl, λ h. refl)
    | inr stream ↦ rw (drop, stream) (refl, λ h. cc)
  ]
  | inr other ↦ rw other (refl, λ h. cc)
]
