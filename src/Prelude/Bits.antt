-- ===== src/Prelude/Bits.antt =====
-- Laws of the exclusive or of native numbers at variables, each from the law for the lowest digit.
use Prim.Native.Nat.{bit_and, bit_xor, bit_and-bitwise, bit_xor-bitwise, digits, differ}
use winindex.Prelude.{
  ℕ, zero, suc, ◌+◌, ◌*◌, ◌/◌, ◌%◌, ◌^◌, ◌≤◌, ◌<◌, min, ◌≡◌, refl, sym, ◌∙◌, arith,
}

-- The count of digits does not matter where it is enough.
digits_fuel :
    (z : ℕ → ℕ) (f : ℕ → ℕ → ℕ) (n m a b : ℕ) → a ≤ n → a ≤ m → digits z f n a b ≡ digits z f m a b
digits_fuel z f zero zero zero b p q = refl
digits_fuel z f zero (suc m) zero b p q = refl
digits_fuel z f (suc n) zero zero b p q = refl
digits_fuel z f (suc n) (suc m) zero b p q = refl
digits_fuel z f zero m (suc a) b p q = absurd (omega arith)
digits_fuel z f (suc n) zero (suc a) b p q = absurd (omega arith)
digits_fuel z f (suc n) (suc m) (suc a) b p q =
    omega (arith, digits_fuel z f n m (suc a / 2) (b / 2) (omega arith) (omega arith))

pub zero-bit_xor : (b : ℕ) → bit_xor 0 b ≡ b
zero-bit_xor b = bit_xor-bitwise 0 b

-- The lowest digit apart.
pub bit_xor_step : (a b : ℕ) → bit_xor a b ≡ bit_xor (a / 2) (b / 2) * 2 + differ (a % 2) (b % 2)
bit_xor_step zero b = omega (arith, zero-bit_xor b, zero-bit_xor (b / 2))
bit_xor_step (suc a) b = omega (
  arith,
  bit_xor-bitwise (suc a) b,
  bit_xor-bitwise (suc a / 2) (b / 2),
  digits_fuel (λ b. b) differ a (suc a / 2) (suc a / 2) (b / 2) (omega arith) (omega arith),
)

differ_bits : (x y : ℕ) → x < 2 → y < 2 → differ x y ≡ (x + y) % 2
differ_bits zero zero p q = refl
differ_bits zero (suc zero) p q = refl
differ_bits (suc zero) zero p q = refl
differ_bits (suc zero) (suc zero) p q = refl
differ_bits zero (suc (suc y)) p q = absurd (omega arith)
differ_bits (suc zero) (suc (suc y)) p q = absurd (omega arith)
differ_bits (suc (suc x)) y p q = absurd (omega arith)

pub bit_xor-mod_two : (a b : ℕ) → bit_xor a b % 2 ≡ (a + b) % 2
bit_xor-mod_two a b =
    omega (arith, bit_xor_step a b, differ_bits (a % 2) (b % 2) (omega arith) (omega arith))

pub bit_xor-half : (a b : ℕ) → bit_xor a b / 2 ≡ bit_xor (a / 2) (b / 2)
bit_xor-half a b =
    omega (arith, bit_xor_step a b, differ_bits (a % 2) (b % 2) (omega arith) (omega arith))

-- Two numbers are equal if they agree in the lowest digit and in the others.
eq_of_digits : {a b : ℕ} → a % 2 ≡ b % 2 → a / 2 ≡ b / 2 → a ≡ b
eq_of_digits p q = omega arith

comm_fuel : (n a b : ℕ) → a + b ≤ n → bit_xor a b ≡ bit_xor b a
comm_fuel zero zero zero h = refl
comm_fuel zero zero (suc b) h = absurd (omega arith)
comm_fuel zero (suc a) b h = absurd (omega arith)
comm_fuel (suc n) a b h = omega (
  arith,
  bit_xor-mod_two a b,
  bit_xor-mod_two b a,
  bit_xor-half a b,
  bit_xor-half b a,
  comm_fuel n (a / 2) (b / 2) (omega arith),
)

pub bit_xor_comm : (a b : ℕ) → bit_xor a b ≡ bit_xor b a
bit_xor_comm a b = comm_fuel (a + b) a b (omega arith)

assoc_fuel : (n a b c : ℕ) → a + b + c ≤ n → bit_xor (bit_xor a b) c ≡ bit_xor a (bit_xor b c)
assoc_fuel zero zero zero zero h = refl
assoc_fuel zero zero zero (suc c) h = absurd (omega arith)
assoc_fuel zero zero (suc b) c h = absurd (omega arith)
assoc_fuel zero (suc a) b c h = absurd (omega arith)
assoc_fuel (suc n) a b c h =
    eq_of_digits
      (omega (
        arith,
        bit_xor-mod_two (bit_xor a b) c,
        bit_xor-mod_two a b,
        bit_xor-mod_two a (bit_xor b c),
        bit_xor-mod_two b c,
      ))
      (cc (
        bit_xor-half (bit_xor a b) c,
        bit_xor-half a b,
        assoc_fuel n (a / 2) (b / 2) (c / 2) (omega arith),
        bit_xor-half b c,
        bit_xor-half a (bit_xor b c),
      ))

pub bit_xor_assoc : (a b c : ℕ) → bit_xor (bit_xor a b) c ≡ bit_xor a (bit_xor b c)
bit_xor_assoc a b c = assoc_fuel (a + b + c) a b c (omega arith)

self_fuel : (n a : ℕ) → a ≤ n → bit_xor a a ≡ 0
self_fuel zero zero h = refl
self_fuel zero (suc a) h = absurd (omega arith)
self_fuel (suc n) a h =
    omega (arith, bit_xor-mod_two a a, bit_xor-half a a, self_fuel n (a / 2) (omega arith))

pub bit_xor_self : (a : ℕ) → bit_xor a a ≡ 0
bit_xor_self a = self_fuel a a (omega arith)

pub bit_xor-bit_xor : (a b : ℕ) → bit_xor a (bit_xor a b) ≡ b
bit_xor-bit_xor a b = sym (bit_xor_assoc a a b) ∙ rw (bit_xor_self a) (zero-bit_xor b)

pub bit_xor_cancel : (a : ℕ) {b c : ℕ} → bit_xor a b ≡ bit_xor a c → b ≡ c
bit_xor_cancel a {b} {c} e = sym (bit_xor-bit_xor a b) ∙ rw e (bit_xor-bit_xor a c)

mod_double : (a m : ℕ) → 0 < m → a % (m * 2) ≡ (a / 2 % m) * 2 + a % 2
mod_double a m h = grind arith

mod_one : (a : ℕ) → a % 1 ≡ 0
mod_one a = omega arith

div_double : (a m : ℕ) → 0 < m → a / (m * 2) ≡ a / 2 / m
div_double a m h = grind arith

div_one : (a : ℕ) → a / 1 ≡ a
div_one a = omega arith

div_small : {a m : ℕ} → a < m → a / m ≡ 0
div_small h = grind arith

pow_suc : (k : ℕ) → 2 ^ suc k ≡ 2 ^ k * 2
pow_suc k = omega arith

pow_pos : (k : ℕ) → 0 < 2 ^ k
pow_pos zero = omega arith
pow_pos (suc k) = omega (arith, pow_pos k)

-- The exclusive or of the low digits, and of the high ones.
mod_xor_double :
    (a b m : ℕ)
    → 0 < m
    → bit_xor (a / 2) (b / 2) % m ≡ bit_xor (a / 2 % m) (b / 2 % m)
    → bit_xor a b % (m * 2) ≡ bit_xor (a % (m * 2)) (b % (m * 2))
mod_xor_double a b m h ih =
    let low_a : a % (m * 2) / 2 ≡ a / 2 % m = omega (arith, mod_double a m h) in
    let low_b : b % (m * 2) / 2 ≡ b / 2 % m = omega (arith, mod_double b m h) in
    let halves : bit_xor a b / 2 % m ≡ bit_xor (a % (m * 2)) (b % (m * 2)) / 2 =
      cc (ih, low_a, low_b, bit_xor-half a b, bit_xor-half (a % (m * 2)) (b % (m * 2))) in
    omega (
      arith,
      halves,
      mod_double a m h,
      mod_double b m h,
      mod_double (bit_xor a b) m h,
      bit_xor-mod_two a b,
      bit_xor-mod_two (a % (m * 2)) (b % (m * 2)),
    )

pub bit_xor-mod_pow : (k a b : ℕ) → bit_xor a b % 2 ^ k ≡ bit_xor (a % 2 ^ k) (b % 2 ^ k)
bit_xor-mod_pow zero a b = rw (mod_one a, mod_one b, zero-bit_xor 0) (omega arith)
bit_xor-mod_pow (suc k) a b =
    rw (pow_suc k) (mod_xor_double a b (2 ^ k) (pow_pos k) (bit_xor-mod_pow k (a / 2) (b / 2)))

pub bit_xor-div_pow : (k a b : ℕ) → bit_xor a b / 2 ^ k ≡ bit_xor (a / 2 ^ k) (b / 2 ^ k)
bit_xor-div_pow zero a b = cc (div_one (bit_xor a b), div_one a, div_one b)
bit_xor-div_pow (suc k) a b = rw (pow_suc k) (
    cc (
      div_double a (2 ^ k) (pow_pos k),
      div_double b (2 ^ k) (pow_pos k),
      div_double (bit_xor a b) (2 ^ k) (pow_pos k),
      bit_xor-half a b,
      bit_xor-div_pow k (a / 2) (b / 2),
    ))

pub bit_xor-lt_pow : (k : ℕ) {a b : ℕ} → a < 2 ^ k → b < 2 ^ k → bit_xor a b < 2 ^ k
bit_xor-lt_pow k {a} {b} p q =
    let small : bit_xor a b / 2 ^ k ≡ 0 =
      bit_xor-div_pow k a b ∙ rw (div_small p, div_small q) (zero-bit_xor 0) in
    grind (arith, pow_pos k)

and_zero_left : (b : ℕ) → bit_and 0 b ≡ 0
and_zero_left b = bit_and-bitwise 0 b

and_step : (a b : ℕ) → bit_and a b ≡ bit_and (a / 2) (b / 2) * 2 + min (a % 2) (b % 2)
and_step zero b = omega (arith, and_zero_left b, and_zero_left (b / 2))
and_step (suc a) b = omega (
  arith,
  bit_and-bitwise (suc a) b,
  bit_and-bitwise (suc a / 2) (b / 2),
  digits_fuel (λ b. zero) min a (suc a / 2) (suc a / 2) (b / 2) (omega arith) (omega arith),
)

-- A mask of `k` ones.
abbrev ones : ℕ → ℕ
ones zero = 0
ones (suc k) = ones k * 2 + 1

and_zero_right : (n a : ℕ) → a ≤ n → bit_and a 0 ≡ 0
and_zero_right zero zero h = refl
and_zero_right zero (suc a) h = absurd (omega arith)
and_zero_right (suc n) zero h = refl
and_zero_right (suc n) (suc a) h =
    omega (arith, and_step (suc a) 0, and_zero_right n (suc a / 2) (omega arith))

and_ones : (k a : ℕ) → bit_and a (ones k) ≡ a % 2 ^ k
and_ones zero a = and_zero_right a a (omega arith) ∙ sym (mod_one a)
and_ones (suc k) a =
    let half : (ones k * 2 + 1) / 2 ≡ ones k = omega arith in
    let rest : bit_and (a / 2) ((ones k * 2 + 1) / 2) ≡ a / 2 % 2 ^ k =
      rw half (and_ones k (a / 2)) in
    rw (pow_suc k)
      (omega (arith, and_step a (ones k * 2 + 1), rest, mod_double a (2 ^ k) (pow_pos k)))

pub bit_and-one : (a : ℕ) → bit_and a 1 ≡ a % 2
bit_and-one a = and_ones 1 a

pub bit_and-byte : (a : ℕ) → bit_and a 0xFF ≡ a % 256
bit_and-byte a = and_ones 8 a
