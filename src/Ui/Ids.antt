-- ===== src/Ui/Ids.antt =====
-- src/ui/resource.h: the ids of the menus and the controls that the handlers compare with.
use winindex.Prelude.{ℕ}

-- The search menu.
abbrev pub id_search_regex : ℕ
id_search_regex = 201

abbrev pub id_search_casesensitive : ℕ
id_search_casesensitive = 202

abbrev pub id_search_wholeword : ℕ
id_search_wholeword = 203

abbrev pub id_search_matchpath : ℕ
id_search_matchpath = 204

abbrev pub id_search_ignorediacs : ℕ
id_search_ignorediacs = 205

-- The index and help menus.
abbrev pub id_index_rebuild : ℕ
id_index_rebuild = 301

abbrev pub id_index_settings : ℕ
id_index_settings = 302

abbrev pub id_help_openlog : ℕ
id_help_openlog = 401

abbrev pub id_help_about : ℕ
id_help_about = 402

-- The context menu.
abbrev pub id_ctx_open : ℕ
id_ctx_open = 502

abbrev pub id_ctx_opendir : ℕ
id_ctx_opendir = 503

abbrev pub id_ctx_copypath : ℕ
id_ctx_copypath = 504

abbrev pub id_ctx_copyname : ℕ
id_ctx_copyname = 505

-- The controls of the dialogs.
abbrev pub idc_manual_only : ℕ
idc_manual_only = 3004

abbrev pub idc_excl_add : ℕ
idc_excl_add = 3006

abbrev pub idc_excl_remove : ℕ
idc_excl_remove = 3007

abbrev pub idc_path_add_location : ℕ
idc_path_add_location = 3011

abbrev pub idc_path_remove : ℕ
idc_path_remove = 3013
