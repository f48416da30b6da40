-- ===== src/Config/Format.antt =====
-- src/core/settings/PathUtils.cpp: the texts of the status line. `std::to_wstring` of an unsigned
-- number is its decimal digits; 20 digits are enough for 64 bits.
pub mod Laws
use winindex.Prelude.{
  ℕ, zero, suc, ◌+◌, ◌-◌, ◌/◌, ◌%◌, Bool, true, false, not, ◌&&◌, List, [], ◌∷◌, ◌++◌, ltb, ◌==◌,
  if◌then◌else◌, length, take, drop, WString, codes, backslash, is_empty, ends_with_char,
}

-- The digits of `n` in front of `tail`.
unfoldable pub digits_onto : ℕ → ℕ → WString → WString
digits_onto zero n tail = tail
digits_onto (suc fuel) n tail =
    let rest = digits_onto fuel (n / 10) ((n % 10 + b'0') ∷ tail) in
    if n / 10 == 0 then (n % 10 + b'0') ∷ tail else rest

unfoldable pub to_decimal : ℕ → WString
unfolding digits_onto
to_decimal n = digits_onto 20 n []

-- `s.insert(i, L",")`
abbrev pub insert_comma : ℕ → WString → WString
insert_comma i s = take i s ++ (b',' ∷ drop i s)

-- `for (i = size - 3; i > 0; i -= 3)`: the int `i` is at most 0 where it is 0 here.
unfoldable pub comma_loop : ℕ → ℕ → WString → WString
comma_loop zero i s = s
comma_loop (suc fuel) i s =
    let rest = comma_loop fuel (i - 3) (insert_comma i s) in if i == 0 then s else rest

unfoldable pub format_file_count : ℕ → WString
unfolding to_decimal comma_loop
format_file_count n = let s = to_decimal n in comma_loop (length s) (length s - 3) s

-- The branches of `FormatAge`, with the numbers that it prints.
pub data Age : Type 0 where
  just_indexed : Age
  minutes : ℕ → Age
  hours : ℕ → Age
  days_hours : ℕ → ℕ → Age

unfoldable pub age_of : ℕ → Age
age_of age_seconds =
    if ltb age_seconds 60
    then just_indexed
    else if ltb age_seconds 3600
    then minutes (age_seconds / 60)
    else if ltb age_seconds 172800
    then hours (age_seconds / 3600)
    else days_hours (age_seconds / 86400) (age_seconds % 86400 / 3600)

unfoldable pub print_age : Age → WString
unfolding to_decimal
print_age just_indexed = codes "just indexed"
print_age (minutes m) = to_decimal m ++ codes " min old"
print_age (hours h) = to_decimal h ++ codes " hrs old"
print_age (days_hours d h) = to_decimal d ++ (codes " days, " ++ (to_decimal h ++ codes " hrs old"))

unfoldable pub format_age : ℕ → WString
unfolding age_of print_age
format_age age_seconds = print_age (age_of age_seconds)

-- `trimmed.pop_back()` after the test on `back()`.
unfoldable pub without_separator : WString → WString
without_separator p = if ends_with_char backslash p then take (length p - 1) p else p

unfoldable pub is_drive_root : WString → Bool
is_drive_root (a ∷ (b ∷ (c ∷ []))) = (b == b':') && (c == backslash)
is_drive_root _ = false

unfoldable pub short_location : WString → WString
unfolding without_separator is_drive_root
short_location p = if is_drive_root p then take 2 p else without_separator p

unfoldable pub locations_onto : WString → List WString → WString
unfolding short_location
locations_onto result [] = result
locations_onto result (p ∷ ps) =
    locations_onto ((if is_empty result then result else result ++ codes ", ") ++ short_location p)
      ps

unfoldable pub format_location_list : List WString → WString
unfolding locations_onto
format_location_list paths = locations_onto [] paths
