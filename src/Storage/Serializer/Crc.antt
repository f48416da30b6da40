-- ===== src/Storage/Serializer/Crc.antt =====
-- src/core/storage/IndexSerializer.cpp: the table of `Crc32` against the division by the polynomial,
-- bit by bit.
use Prim.Native.Nat.{bit_and, bit_xor}
use winindex.Prelude.{
  ℕ, zero, suc, ◌+◌, ◌*◌, ◌/◌, ◌%◌, ◌^◌, ◌<◌, ◌≡◌, refl, sym, ap, ◌∙◌, inl, inr, Bool-cases, true,
  false, List, [], ◌∷◌, ◌++◌, arith, All, ◌==◌, if◌then◌else◌,
}
use winindex.Prelude.Bits.{
  zero-bit_xor, bit_xor-mod_two, bit_xor-half, bit_xor_comm, bit_xor_assoc, bit_xor-mod_pow,
  bit_xor-div_pow, bit_xor-lt_pow, bit_and-one, bit_and-byte,
}
use winindex.Storage.Serializer.{crc_round, crc_rounds, crc_table, crc_loop, crc32}

-- The reference: the register is shifted by one, and the polynomial is taken off where the digit
-- that falls out differs from the next of the message.
pub divide_bit : ℕ → ℕ → ℕ
divide_bit c bit = if (c + bit) % 2 == 1 then bit_xor 0xEDB88320 (c / 2) else c / 2

pub divide : ℕ → List ℕ → ℕ
divide c [] = c
divide c (bit ∷ bits) = divide (divide_bit c bit) bits

-- The digits of a byte, lowest first.
pub bits_of : ℕ → ℕ → List ℕ
bits_of zero b = []
bits_of (suc n) b = b % 2 ∷ bits_of n (b / 2)

pub message_bits : List ℕ → List ℕ
message_bits [] = []
message_bits (b ∷ bs) = bits_of 8 b ++ message_bits bs

-- What a round takes off.
taken_off : ℕ → ℕ
taken_off x = if x % 2 == 1 then 0xEDB88320 else 0

crc_round-taken_off : (x : ℕ) → crc_round x ≡ bit_xor (taken_off x) (x / 2)
unfolding crc_round taken_off
crc_round-taken_off x = elim (Bool-cases (x % 2 == 1)) [
  | inl odd ↦ rw (bit_and-one x, odd)
  | inr even ↦ rw (bit_and-one x, even) (sym (zero-bit_xor (x / 2)))
]

bit_xor-zero : (a : ℕ) → bit_xor a 0 ≡ a
bit_xor-zero a = bit_xor_comm a 0 ∙ zero-bit_xor a

even_of_even : (a n : ℕ) → a % 2 ≡ n % 2 → n % 2 ≡ 0 → (a % 2 == 1) ≡ false
even_of_even a n e h = ground arith

odd_of_odd : (a n : ℕ) → a % 2 ≡ n % 2 → n % 2 ≡ 1 → (a % 2 == 1) ≡ true
odd_of_odd a n e h = ground arith

taken_off-bit_xor : (x y : ℕ) → taken_off (bit_xor x y) ≡ bit_xor (taken_off x) (taken_off y)
unfolding taken_off
taken_off-bit_xor x y =
    let parity = bit_xor-mod_two x y in
    elim (Bool-cases (x % 2 == 1)) [
      | inl p ↦ elim (Bool-cases (y % 2 == 1)) [
        | inl q ↦ rw (p, q, even_of_even _ _ parity (ground arith))
        | inr q ↦ rw (p, q, odd_of_odd _ _ parity (ground arith))
      ]
      | inr p ↦ elim (Bool-cases (y % 2 == 1)) [
        | inl q ↦ rw (p, q, odd_of_odd _ _ parity (ground arith))
        | inr q ↦ rw (p, q, even_of_even _ _ parity (ground arith))
      ]
    ]

bit_xor_swap :
    (a b c d : ℕ) → bit_xor (bit_xor a b) (bit_xor c d) ≡ bit_xor (bit_xor a c) (bit_xor b d)
bit_xor_swap a b c d = cc (
  bit_xor_assoc a b (bit_xor c d),
  bit_xor_assoc b c d,
  bit_xor_comm b c,
  bit_xor_assoc c b d,
  bit_xor_assoc a c (bit_xor b d),
)

crc_round-bit_xor : (x y : ℕ) → crc_round (bit_xor x y) ≡ bit_xor (crc_round x) (crc_round y)
crc_round-bit_xor x y = cc (
  crc_round-taken_off x,
  crc_round-taken_off y,
  crc_round-taken_off (bit_xor x y),
  taken_off-bit_xor x y,
  bit_xor-half x y,
  bit_xor_swap (taken_off x) (taken_off y) (x / 2) (y / 2),
)

crc_rounds-bit_xor :
    (k x y : ℕ) → crc_rounds k (bit_xor x y) ≡ bit_xor (crc_rounds k x) (crc_rounds k y)
unfolding crc_rounds
crc_rounds-bit_xor zero x y = refl
crc_rounds-bit_xor (suc k) x y =
    rw (crc_round-bit_xor x y) (crc_rounds-bit_xor k (crc_round x) (crc_round y))

-- Digits that do not fall out are only shifted.
crc_round-double : (x : ℕ) → crc_round (x * 2) ≡ x
unfolding taken_off
crc_round-double x =
    let even : (x * 2 % 2 == 1) ≡ false = ground arith in
    let half : x * 2 / 2 ≡ x = omega arith in
    crc_round-taken_off (x * 2) ∙ rw (even, half) (zero-bit_xor x)

crc_rounds-shifted : (x : ℕ) → crc_rounds 8 (x * 256) ≡ x
unfolding crc_rounds
crc_rounds-shifted x =
    let e : x * 256 ≡ x * 2 * 2 * 2 * 2 * 2 * 2 * 2 * 2 = omega arith in
    rw e (simp crc_round-double)

low_and_high : (x : ℕ) → bit_xor (x % 256) (x / 256 * 256) ≡ x
low_and_high x =
    let low : x % 256 % 256 ≡ x % 256 = omega arith in
    let none_low : x / 256 * 256 % 256 ≡ 0 = omega arith in
    let none_high : x % 256 / 256 ≡ 0 = omega arith in
    let high : x / 256 * 256 / 256 ≡ x / 256 = omega arith in
    let remainder : bit_xor (x % 256) (x / 256 * 256) % 256 ≡ x % 256 =
      bit_xor-mod_pow 8 (x % 256) (x / 256 * 256) ∙ rw (low, none_low) (bit_xor-zero (x % 256)) in
    let quotient : bit_xor (x % 256) (x / 256 * 256) / 256 ≡ x / 256 =
      bit_xor-div_pow 8 (x % 256) (x / 256 * 256) ∙ rw (none_high, high) (zero-bit_xor (x / 256)) in
    omega (arith, remainder, quotient)

-- Eight rounds are one look into the table.
crc_rounds-table : (x : ℕ) → crc_rounds 8 x ≡ bit_xor (crc_table (x % 256)) (x / 256)
unfolding crc_table
crc_rounds-table x =
    ap (crc_rounds 8) (sym (low_and_high x))
    ∙ crc_rounds-bit_xor 8 (x % 256) (x / 256 * 256)
    ∙ ap (bit_xor (crc_rounds 8 (x % 256))) (crc_rounds-shifted (x / 256))

divide_bit-crc_round : (c b : ℕ) → bit_xor (divide_bit c (b % 2)) (b / 2) ≡ crc_round (bit_xor c b)
unfolding divide_bit crc_round
divide_bit-crc_round c b =
    let parity : bit_xor c b % 2 ≡ (c + b % 2) % 2 = omega (arith, bit_xor-mod_two c b) in
    elim (Bool-cases ((c + b % 2) % 2 == 1)) [
      | inl odd ↦
          rw (odd, bit_and-one (bit_xor c b), parity, odd, bit_xor-half c b)
            (bit_xor_assoc 0xEDB88320 (c / 2) (b / 2))
      | inr even ↦ rw (even, bit_and-one (bit_xor c b), parity, even) (sym (bit_xor-half c b))
    ]

divide-bits_of : (k c b : ℕ) → b < 2 ^ k → divide c (bits_of k b) ≡ crc_rounds k (bit_xor c b)
unfolding divide bits_of crc_rounds
divide-bits_of zero c b h = let e : b ≡ 0 = omega arith in rw e (sym (bit_xor-zero c))
divide-bits_of (suc k) c b h =
    divide-bits_of k (divide_bit c (b % 2)) (b / 2) (omega arith)
    ∙ ap (crc_rounds k) (divide_bit-crc_round c b)

divide-append : (c : ℕ) (xs ys : List ℕ) → divide c (xs ++ ys) ≡ divide (divide c xs) ys
unfolding divide
divide-append c [] ys = refl
divide-append c (x ∷ xs) ys = divide-append (divide_bit c x) xs ys

abbrev pub IsByte : ℕ → Type 0
IsByte b = b < 256

-- One byte of the message is one look into the table.
crc_step-divide :
    (c b : ℕ)
    → IsByte b
    → divide c (bits_of 8 b) ≡ bit_xor (crc_table (bit_and (bit_xor c b) 0xFF)) (c / 256)
crc_step-divide c b h =
    let high : bit_xor c b / 256 ≡ c / 256 =
      bit_xor-div_pow 8 c b ∙ let e : b / 256 ≡ 0 = omega arith in rw e (bit_xor-zero (c / 256)) in
    divide-bits_of 8 c b h ∙ crc_rounds-table (bit_xor c b) ∙ rw (bit_and-byte (bit_xor c b), high)

crc_loop-divide :
    (c : ℕ) (bytes : List ℕ) → All IsByte bytes → crc_loop c bytes ≡ divide c (message_bits bytes)
unfolding crc_loop divide message_bits
crc_loop-divide c [] w = refl
crc_loop-divide c (b ∷ bs) w =
    crc_loop-divide (bit_xor (crc_table (bit_and (bit_xor c b) 0xFF)) (c / 256)) bs w.1
    ∙ ap (λ r. divide r (message_bits bs)) (sym (crc_step-divide c b w.0))
    ∙ sym (divide-append c (bits_of 8 b) (message_bits bs))

-- The register keeps 32 digits.
divide_bit-lt : (c bit : ℕ) → c < 2 ^ 32 → divide_bit c bit < 2 ^ 32
unfolding divide_bit
divide_bit-lt c bit h = elim (Bool-cases ((c + bit) % 2 == 1)) [
  | inl odd ↦ rw odd (bit_xor-lt_pow 32 {a = 0xEDB88320} (omega arith) (omega arith))
  | inr even ↦ rw even (omega arith)
]

divide-lt : (c : ℕ) (bits : List ℕ) → c < 2 ^ 32 → divide c bits < 2 ^ 32
unfolding divide
divide-lt c [] h = h
divide-lt c (bit ∷ bits) h = divide-lt (divide_bit c bit) bits (divide_bit-lt c bit h)

pub crc_loop-lt :
    (c : ℕ) (bytes : List ℕ) → All IsByte bytes → c < 2 ^ 32 → crc_loop c bytes < 2 ^ 32
crc_loop-lt c bytes w h = rw (crc_loop-divide c bytes w) (divide-lt c (message_bits bytes) h)

-- The casts cut nothing off.
pub crc32-crc_loop :
    (bytes : List ℕ)
    → All IsByte bytes
    → crc32 bytes ≡ bit_xor 0xFFFFFFFF (crc_loop 0xFFFFFFFF bytes)
unfolding crc32
crc32-crc_loop bytes w =
    let register = crc_loop 0xFFFFFFFF bytes in
    let fits : bit_xor register 0xFFFFFFFF < 2 ^ 32 =
      bit_xor-lt_pow 32 (crc_loop-lt 0xFFFFFFFF bytes w (omega arith)) (omega arith) in
    let kept : bit_xor register 0xFFFFFFFF % 2 ^ 32 ≡ bit_xor register 0xFFFFFFFF = omega arith in
    kept ∙ bit_xor_comm register 0xFFFFFFFF

-- On every list of bytes, the CRC by the table of 256 entries is the complement of the remainder
-- that the division of the bits by the polynomial leaves, bit by bit, from a register of ones.
pub crc32-divide :
    (bytes : List ℕ)
    → All IsByte bytes
    → crc32 bytes ≡ bit_xor 0xFFFFFFFF (divide 0xFFFFFFFF (message_bits bytes))
crc32-divide bytes w = crc32-crc_loop bytes w ∙ ap (bit_xor 0xFFFFFFFF) (crc_loop-divide _ bytes w)
