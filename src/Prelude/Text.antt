-- ===== src/Prelude/Text.antt =====
-- Wide strings as lists of UTF-16 code units, with the operations of std::wstring that the code uses.
use Prim.Native.Char.{code}
use Prim.Native.String.{String}
use Prim.Native.Nat.{ℕ, suc, ◌≤◌}
use mathlib.Core.Path.{◌≡◌, refl}
use mathlib.Core.Logic.{◌↔◌, ◌≢◌, inl, inr}
use mathlib.Core.List.{List, [], ◌∷◌}
use mathlib.Core.Bool.{Bool, true, false, ◌&&◌}
use mathlib.Core.Option.{Option, none, some}
use native.Mathlib.Omega.{arith}
use winindex.Prelude.Tests.{◌==◌, if◌then◌else◌, Option-cases}
use winindex.Prelude.Lists.{length, drop, All}

abbrev pub WString : Type 0
WString = List ℕ

-- The code units of a literal.
abbrev pub codes : String → WString
codes String.[] = []
codes (String.◌∷◌ c s) = code c ∷ codes s

abbrev pub backslash : ℕ
backslash = b'\\'

-- operator== of two strings.
abbrev pub wstr_eq : WString → WString → Bool
wstr_eq [] [] = true
wstr_eq [] (y ∷ ys) = false
wstr_eq (x ∷ xs) [] = false
wstr_eq (x ∷ xs) (y ∷ ys) = (x == y) && wstr_eq xs ys

-- s.starts_with(p), and s.compare(0, p.size(), p) == 0.
abbrev pub starts_with : WString → WString → Bool
starts_with s [] = true
starts_with [] (p ∷ ps) = false
starts_with (c ∷ s) (p ∷ ps) = (c == p) && starts_with s ps

-- s.rfind(c)
abbrev rfind_from : Bool → Option ℕ → Option ℕ
rfind_from hit (some i) = some (suc i)
rfind_from hit none = if hit then some 0 else none

abbrev pub rfind : ℕ → WString → Option ℕ
rfind c [] = none
rfind c (x ∷ xs) = rfind_from (x == c) (rfind c xs)

-- s.back() == c, false on the empty string.
abbrev pub ends_with_char : ℕ → WString → Bool
ends_with_char c [] = false
ends_with_char c (x ∷ []) = x == c
ends_with_char c (x ∷ (y ∷ ys)) = ends_with_char c (y ∷ ys)

abbrev pub is_empty {ℓ} : {A : Type ℓ} → List A → Bool
is_empty [] = true
is_empty (x ∷ xs) = false

pub wstr_eq_iff : (s t : WString) → (wstr_eq s t ≡ true) ↔ (s ≡ t)
wstr_eq_iff [] [] = (λ _. refl, λ _. refl)
wstr_eq_iff [] (y ∷ ys) = (λ h. cc, λ h. cc)
wstr_eq_iff (x ∷ xs) [] = (λ h. cc, λ h. cc)
wstr_eq_iff (x ∷ xs) (y ∷ ys) =
    (λ h. ground (arith, wstr_eq_iff xs ys), λ h. ground (arith, wstr_eq_iff xs ys))

-- The position behind the last `c`, or the start.
abbrev pub after_last : Option ℕ → ℕ
after_last none = 0
after_last (some i) = suc i

pub after_last-le : (c : ℕ) (s : WString) → after_last (rfind c s) ≤ length s
after_last-le c [] = omega arith
after_last-le c (x ∷ xs) = elim (Option-cases (rfind c xs)) [
  | inl e ↦ rw e (ground arith)
  | inr (i, e) ↦ let ih : suc i ≤ length xs = rw e at (after_last-le c xs) in rw e (omega arith)
]

-- Behind the last `c` there is no `c`.
pub drop-after_last : (c : ℕ) (s : WString) → All (λ x. x ≢ c) (drop (after_last (rfind c s)) s)
drop-after_last c [] = tt
drop-after_last c (x ∷ xs) = elim (Option-cases (rfind c xs)) [
  | inr (i, e) ↦ rw e (rw e at (drop-after_last c xs))
  | inl e ↦ let ih : All (λ y. y ≢ c) xs = rw e at (drop-after_last c xs) in rw e (ground arith)
]
