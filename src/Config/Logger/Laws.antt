-- ===== src/Config/Logger/Laws.antt =====
-- The names of the levels read back, and a logged message can be recovered from its line.
use winindex.Prelude.{
  ℕ, ◌≤◌, ◌≡◌, refl, Bool, true, false, not, ◌&&◌, ◌||◌, Option, none, some, [], ◌∷◌, ◌++◌, List,
  ltb, all, map, arith, leb, ◌==◌, if◌then◌else◌, All, is_empty, WString, backslash,
}
use winindex.Config.Logger.{
  LogLevel, critical, error, warning, info, debug, verbose, severity, to_wstring, level_of,
  try_parse_log_level, c_str, log_line, Logger, log,
}

-- Upper case letters are their own upper case.
abbrev pub KeepsCapitals : (ℕ → ℕ) → Type 0
KeepsCapitals towupper = (c : ℕ) → 65 ≤ c → c ≤ 90 → towupper c ≡ c

abbrev Capitals : WString → Type 0
Capitals = All (λ c. (65 ≤ c) × (c ≤ 90))

map-Capitals :
    (towupper : ℕ → ℕ) (s : WString) → KeepsCapitals towupper → Capitals s → map towupper s ≡ s
map-Capitals towupper [] k h = refl
map-Capitals towupper (c ∷ s) k h = rw (k c h.0.0 h.0.1, map-Capitals towupper s k h.1)

to_wstring-Capitals : (l : LogLevel) → Capitals (to_wstring l)
unfolding to_wstring
to_wstring-Capitals critical = omega arith
to_wstring-Capitals error = omega arith
to_wstring-Capitals warning = omega arith
to_wstring-Capitals info = omega arith
to_wstring-Capitals debug = omega arith
to_wstring-Capitals verbose = omega arith

level_of-to_wstring : (l : LogLevel) → level_of (to_wstring l) ≡ some l
unfolding level_of to_wstring
level_of-to_wstring critical = refl
level_of-to_wstring error = refl
level_of-to_wstring warning = refl
level_of-to_wstring info = refl
level_of-to_wstring debug = refl
level_of-to_wstring verbose = refl

-- If `towupper` keeps the capitals A to Z, every text with the same upper case as a level's name
-- parses to that level.
pub try_parse_log_level-to_wstring :
    (towupper : ℕ → ℕ) (l : LogLevel) (text : WString)
    → KeepsCapitals towupper
    → map towupper text ≡ map towupper (to_wstring l)
    → try_parse_log_level towupper text ≡ some l
unfolding try_parse_log_level
try_parse_log_level-to_wstring towupper l text k e =
    rw (e, map-Capitals towupper (to_wstring l) k (to_wstring-Capitals l)) (level_of-to_wstring l)

abbrev behind : ℕ → Option (WString × WString) → Option (WString × WString)
behind c none = none
behind c (some (m, rest)) = some (c ∷ m, rest)

-- A reader of the quoted field, up to the first quote that no backslash precedes; the flag says
-- that one has just been read.
abbrev pub unescape : Bool → WString → Option (WString × WString)
unescape escaped [] = none
unescape true (c ∷ cs) = behind c (unescape false cs)
unescape false (c ∷ cs) =
    let after_backslash = unescape true cs in
    let rest = behind c (unescape false cs) in
    if c == b'"' then some ([], cs) else if c == backslash then after_backslash else rest

-- A code unit other than NUL and the surrogates.
abbrev pub is_plain : ℕ → Bool
is_plain c = not (c == 0) && (ltb c 0xD800 || leb 0xE000 c)

-- The conversion to UTF-8 loses nothing of a text of such code units: `from_utf8` undoes it.
abbrev pub Converts : (WString → List ℕ) → (List ℕ → WString) → Type 0
Converts to_utf8 from_utf8 = (s : WString) → all is_plain s ≡ true → from_utf8 (to_utf8 s) ≡ s

-- `Log` appends one line, for a logger with a file and a message no more verbose than the level,
-- and otherwise changes nothing.
pub log_threshold :
    (to_utf8 : WString → List ℕ) (level : LogLevel) (message : WString) (l : Logger)
    → log to_utf8 level message l ≡ (
        if not (is_empty l.path) && leb (severity level) (severity l.level)
        then record l { lines = l.lines ++ (to_utf8 (c_str (log_line level message)) ∷ []) }
        else l)
unfolding log
log_threshold to_utf8 level message l = ground arith
