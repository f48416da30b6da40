-- ===== src/Config/Format/Laws.antt =====
-- What the formatted texts say of the numbers.
use winindex.Prelude.{
  ℕ, zero, suc, ◌+◌, ◌-◌, ◌*◌, ◌/◌, ◌%◌, ◌^◌, ◌≤◌, ◌<◌, ◌≡◌, refl, sym, ap, ◌∙◌, Bool, not, [], ◌∷◌,
  ◌++◌, arith, ltb, ◌==◌, length, take, drop, filter, take-append-drop, WString, inl, inr,
  Bool-cases,
}
use winindex.Config.Format.{
  Age, just_indexed, minutes, hours, days_hours, age_of, digits_onto, to_decimal, insert_comma,
  comma_loop, format_file_count,
}

-- What a branch of the age text claims of the age.
abbrev pub Describes : Age → ℕ → Type 0
Describes just_indexed s = s < 60
Describes (minutes m) s = (1 ≤ m) × (m < 60) × (60 * m ≤ s) × (s < 60 * m + 60)
Describes (hours h) s = (1 ≤ h) × (h < 48) × (3600 * h ≤ s) × (s < 3600 * h + 3600)
Describes (days_hours d h) s =
    (2 ≤ d) × (h < 24) × (86400 * d + 3600 * h ≤ s) × (s < 86400 * d + 3600 * h + 3600)

-- Every age is described by the branch that prints it: minutes below 60, hours from 1 to 47, and
-- from two days on days with hours below 24, each rounded down to the unit printed last.
pub age_of-Describes : (s : ℕ) → Describes (age_of s) s
unfolding age_of
age_of-Describes s = elim (Bool-cases (ltb s 60)) [
  | inl young ↦ rw young (ground arith)
  | inr a ↦ rw a (elim (Bool-cases (ltb s 3600)) [
    | inl young ↦ rw young (ground arith)
    | inr b ↦ rw b (elim (Bool-cases (ltb s 172800)) [
      | inl young ↦ rw young (ground arith)
      | inr c ↦ rw c (ground arith)
    ])
  ])
]

-- The value of a string of digits, read after `acc`.
abbrev pub decimal_value : ℕ → WString → ℕ
decimal_value acc [] = acc
decimal_value acc (c ∷ cs) = decimal_value (acc * 10 + (c - b'0')) cs

pub digits_onto-value :
    (fuel n : ℕ) (tail : WString)
    → n < 10 ^ fuel
    → 0 < fuel
    → decimal_value 0 (digits_onto fuel n tail) ≡ decimal_value n tail
unfolding digits_onto
digits_onto-value zero n tail h p = absurd (omega arith)
digits_onto-value (suc zero) n tail h p = ground arith
digits_onto-value (suc (suc fuel)) n tail h p = elim (Bool-cases (n / 10 == 0)) [
  | inl last ↦ rw last (ap (λ t. decimal_value t tail) (ground arith))
  | inr more ↦ rw more (
      digits_onto-value (suc fuel) (n / 10) ((n % 10 + b'0') ∷ tail) (grind arith) (omega arith)
      ∙ ap (λ t. decimal_value t tail) (omega arith))
]

filter-append : (p : ℕ → Bool) (xs ys : WString) → filter p (xs ++ ys) ≡ filter p xs ++ filter p ys
filter-append p [] ys = refl
filter-append p (x ∷ xs) ys = ground (arith, filter-append p xs ys)

abbrev pub no_commas : WString → WString
no_commas = filter (λ c. not (c == b','))

no_commas-insert_comma : (i : ℕ) (s : WString) → no_commas (insert_comma i s) ≡ no_commas s
no_commas-insert_comma i s =
    filter-append _ (take i s) (b',' ∷ drop i s)
    ∙ sym (filter-append _ (take i s) (drop i s))
    ∙ ap no_commas (take-append-drop i s)

no_commas-comma_loop : (fuel i : ℕ) (s : WString) → no_commas (comma_loop fuel i s) ≡ no_commas s
unfolding comma_loop
no_commas-comma_loop zero i s = refl
no_commas-comma_loop (suc fuel) i s = elim (Bool-cases (i == 0)) [
  | inl done ↦ rw done
  | inr more ↦
      rw more (no_commas-comma_loop fuel (i - 3) (insert_comma i s) ∙ no_commas-insert_comma i s)
]

digits_onto-no_commas :
    (fuel n : ℕ) (tail : WString)
    → no_commas tail ≡ tail
    → no_commas (digits_onto fuel n tail) ≡ digits_onto fuel n tail
unfolding digits_onto
digits_onto-no_commas zero n tail h = h
digits_onto-no_commas (suc fuel) n tail h =
    let digit : no_commas ((n % 10 + b'0') ∷ tail) ≡ (n % 10 + b'0') ∷ tail = ground arith in
    elim (Bool-cases (n / 10 == 0)) [
      | inl last ↦ rw last digit
      | inr more ↦ rw more (digits_onto-no_commas fuel (n / 10) ((n % 10 + b'0') ∷ tail) digit)
    ]

-- For every 64-bit count, the formatted count without its commas is a decimal numeral of the
-- count.
pub format_file_count-value :
    (n : ℕ) → n < 2 ^ 64 → decimal_value 0 (no_commas (format_file_count n)) ≡ n
unfolding format_file_count
format_file_count-value n h =
    let s = to_decimal n in
    ap (decimal_value 0) (
      no_commas-comma_loop (length s) (length s - 3) s
      ∙ unfold to_decimal in digits_onto-no_commas 20 n [] refl)
    ∙ unfold to_decimal in digits_onto-value 20 n [] (omega arith) (omega arith)
