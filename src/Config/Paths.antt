-- ===== src/Config/Paths.antt =====
-- src/core/settings/PathUtils.cpp: the directory of the program, and whether it runs from there. The
-- module's file name, the files that exist and CreateDirectoryW are arguments.
use winindex.Prelude.{
  ℕ, Bool, ◌||◌, Option, none, some, ◌++◌, take, rfind, WString, codes, backslash,
}

abbrev pub up_to : WString → Option ℕ → WString
up_to p none = p
up_to p (some slash) = take slash p

unfoldable pub get_exe_directory : WString → WString
get_exe_directory module_name = up_to module_name (rfind backslash module_name)

unfoldable pub is_portable_mode : (WString → Bool) → WString → Bool
unfolding get_exe_directory
is_portable_mode exists module_name =
    exists (get_exe_directory module_name ++ codes "\\winindex.ini")

-- The directory was created, or the error says that it was there.
unfoldable pub ensure_directory : Bool → Bool → Bool
ensure_directory created already_exists = created || already_exists
