-- ===== src/Ui/Drag.antt =====
-- src/ui/MainWindow.cpp: the data object and the source of a drag, by their reference counts and the
-- handle of the list of paths. The clipboard formats and the allocation of memory are arguments.
pub mod Format
pub mod Source
use winindex.Prelude.{
  ℕ, zero, suc, ◌+◌, ◌-◌, ◌/◌, ◌%◌, ◌^◌, Bool, true, false, not, ◌&&◌, ◌||◌, Option, none, some,
  ◌==◌, if◌then◌else◌, WString,
}

-- The results of the methods.
pub data Hresult : Type 0 where
  s_ok e_invalidarg dv_e_formatetc e_outofmemory e_notimpl e_nointerface : Hresult
  dragdrop_s_cancel dragdrop_s_drop dragdrop_s_usedefaultcursors : Hresult
  ole_e_advisenotsupported : Hresult

-- FORMATETC by the fields that are read; TYMED_HGLOBAL is the bit of value 1, CF_HDROP is 15.
pub record FormatEtc : Type 0 where
  pub cf_format : ℕ
  pub tymed : ℕ

abbrev pub has_hglobal : FormatEtc → Bool
has_hglobal fe = fe.tymed % 2 == 1

-- `paths` is the memory behind `m_hDrop`; `freed` whether the object has been deleted.
pub record DropDataObject : Type 0 where
  pub paths : WString
  pub refs : ℕ
  pub freed : Bool

abbrev pub new_drop_data_object : WString → DropDataObject
new_drop_data_object paths = record { paths = paths; refs = 1; freed = false }

unfoldable pub add_ref : DropDataObject → DropDataObject × ℕ
add_ref obj = (record obj { refs = obj.refs + 1 }, obj.refs + 1)

unfoldable pub release : DropDataObject → DropDataObject × ℕ
release obj = let r = obj.refs - 1 in (record obj { refs = r; freed = obj.freed || (r == 0) }, r)

-- `known` is whether the interface asked for is one of the two that the object has.
unfoldable pub query_interface : Bool → DropDataObject → DropDataObject × Hresult
unfolding add_ref
query_interface true obj = ((add_ref obj).0, s_ok)
query_interface false obj = (obj, e_nointerface)

-- `none` are the null pointers; `allocates` is whether GlobalAlloc succeeds.
unfoldable pub get_data : Bool → DropDataObject → Option FormatEtc → Hresult × Option WString
get_data allocates obj none = (e_invalidarg, none)
get_data allocates obj (some fe) =
    if not (fe.cf_format == 15) || not (has_hglobal fe)
    then (dv_e_formatetc, none)
    else if not allocates
    then (e_outofmemory, none)
    else (s_ok, some obj.paths)

unfoldable pub query_get_data : Option FormatEtc → Hresult
query_get_data none = e_invalidarg
query_get_data (some fe) = if (fe.cf_format == 15) && has_hglobal fe then s_ok else dv_e_formatetc

-- EnumFormatEtc with DATADIR_GET offers this format; the other direction is not implemented.
unfoldable pub enum_format_etc : Bool → Hresult × Option FormatEtc
enum_format_etc true = (s_ok, some (record { cf_format = 15; tymed = 1 }))
enum_format_etc false = (e_notimpl, none)

-- MK_LBUTTON and MK_RBUTTON are the bits of values 1 and 2.
unfoldable pub query_continue_drag : Bool → ℕ → Hresult
query_continue_drag escape_pressed key_state =
    if escape_pressed
    then dragdrop_s_cancel
    else if key_state % 4 == 0
    then dragdrop_s_drop
    else s_ok
