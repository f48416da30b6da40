-- ===== src/Config/Logger.antt =====
-- src/core/settings/Logger.h, Logger.cpp. The log file is the list of the lines appended to it, as
-- bytes and without the time stamps, which come from the system. The conversion of
-- WideCharToMultiByte is an argument.
pub mod Laws
use winindex.Prelude.{
  ℕ, ◌+◌, ◌<◌, Bool, true, false, ◌||◌, Option, none, some, List, [], ◌∷◌, ◌++◌, map, ltb, ◌==◌,
  if◌then◌else◌, is_empty, WString, codes, wstr_eq, backslash,
}

pub data LogLevel : Type 0 where
  critical error warning info debug verbose : LogLevel

-- The enumerators' values.
abbrev pub severity : LogLevel → ℕ
severity critical = 0
severity error = 1
severity warning = 2
severity info = 3
severity debug = 4
severity verbose = 5

unfoldable pub to_wstring : LogLevel → WString
to_wstring critical = codes "CRITICAL"
to_wstring error = codes "ERROR"
to_wstring warning = codes "WARNING"
to_wstring info = codes "INFO"
to_wstring debug = codes "DEBUG"
to_wstring verbose = codes "VERBOSE"

-- The chain of comparisons on the upper-cased text.
unfoldable pub level_of : WString → Option LogLevel
level_of upper =
    if wstr_eq upper (codes "CRITICAL")
    then some critical
    else if wstr_eq upper (codes "ERROR")
    then some error
    else if wstr_eq upper (codes "WARNING")
    then some warning
    else if wstr_eq upper (codes "INFO")
    then some info
    else if wstr_eq upper (codes "DEBUG")
    then some debug
    else if wstr_eq upper (codes "VERBOSE")
    then some verbose
    else none

-- `none` is false, with the output level unchanged.
unfoldable pub try_parse_log_level : (ℕ → ℕ) → WString → Option LogLevel
unfolding level_of
try_parse_log_level towupper text = level_of (map towupper text)

-- The loop that puts a backslash before a quote or a backslash.
unfoldable pub escape : WString → WString
escape [] = []
escape (c ∷ cs) =
    if (c == b'"') || (c == backslash) then backslash ∷ (c ∷ escape cs) else c ∷ escape cs

unfoldable pub log_line : LogLevel → WString → WString
unfolding to_wstring
log_line level message =
    codes "level=" ++ (to_wstring level ++ (codes " msg=\"" ++ (escape message ++ codes "\"")))

pub record Logger : Type 0 where
  pub path : WString
  pub level : LogLevel
  pub lines : List (List ℕ)

-- `line.c_str()`, which ends at the first NUL.
abbrev pub c_str : WString → WString
c_str [] = []
c_str (c ∷ cs) = let rest = c_str cs in if c == 0 then [] else c ∷ rest

-- `session` is the line with which `Init` opens a session, with the local time in it.
unfoldable pub init : WString → LogLevel → List ℕ → Logger → Logger
init log_path level session l = record l {
  path = log_path;
  level = level;
  lines = l.lines ++ (session ∷ []);
}

unfoldable pub set_level : LogLevel → Logger → Logger
set_level level l = record l { level = level }

unfoldable pub log : (WString → List ℕ) → LogLevel → WString → Logger → Logger
unfolding log_line
log to_utf8 level message l =
    if is_empty l.path || ltb (severity l.level) (severity level)
    then l
    else record l { lines = l.lines ++ (to_utf8 (c_str (log_line level message)) ∷ []) }
