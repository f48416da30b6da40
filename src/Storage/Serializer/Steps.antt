-- ===== src/Storage/Serializer/Steps.antt =====
-- src/core/storage/IndexSerializer.cpp: the steps of `Crc32` taken backwards, by the inverse of its
-- table.
use Prim.Native.Nat.{bit_and, bit_xor}
use winindex.Prelude.{
  ℕ, zero, suc, ◌+◌, ◌*◌, ◌/◌, ◌%◌, ◌^◌, ◌≤◌, ◌<◌, ◌≡◌, refl, ap, ◌∙◌, inl, inr, Bool-cases, true,
  Bool, ◌&&◌, List, [], ◌∷◌, ◌++◌, arith, All, ◌==◌, ==_iff, if◌then◌else◌, length, leb,
}
use winindex.Prelude.Bits.{
  bit_xor-mod_pow, bit_xor-div_pow, bit_xor_cancel, bit_and-byte, zero-bit_xor, bit_xor-lt_pow,
  bit_xor_comm,
}
use winindex.Storage.Serializer.{crc_table, crc_loop}
use winindex.Storage.Serializer.Crc.{IsByte, crc_loop-lt}

crc_step : ℕ → ℕ → ℕ
crc_step c b = bit_xor (crc_table (bit_and (bit_xor c b) 0xFF)) (c / 256)

-- The place in the table that a byte looks up.
place : ℕ → ℕ → ℕ
place c b = bit_xor (c % 256) b

crc_step-place : (c b : ℕ) → IsByte b → crc_step c b ≡ bit_xor (crc_table (place c b)) (c / 256)
unfolding crc_step place
crc_step-place c b h =
    let low : b % 256 ≡ b = omega arith in
    rw (bit_and-byte (bit_xor c b), bit_xor-mod_pow 8 c b, low)

-- A round backwards: the highest digit says whether the polynomial was taken off.
undo : ℕ → ℕ
undo c = if leb (2 ^ 31) c then bit_xor 0xEDB88320 c * 2 + 1 else c * 2

-- The place of an entry of the table, from its highest byte.
place_of : ℕ → ℕ
unfolding undo
place_of top = undo (undo (undo (undo (undo (undo (undo (undo (top * 2 ^ 24)))))))) % 256

holds_up_to : (ℕ → Bool) → ℕ → Bool
holds_up_to p zero = p zero
holds_up_to p (suc n) = holds_up_to p n && p (suc n)

holds_up_to_sound : (p : ℕ → Bool) (n i : ℕ) → i ≤ n → holds_up_to p n ≡ true → p i ≡ true
unfolding holds_up_to
holds_up_to_sound p zero zero h e = e
holds_up_to_sound p zero (suc i) h e = absurd (omega arith)
holds_up_to_sound p (suc n) i h e = elim (Bool-cases (i == suc n)) [
  | inl last ↦ let same : i ≡ suc n = (==_iff i (suc n)).0 last in rw same (ground arith)
  | inr before ↦ ground (arith, holds_up_to_sound p n i)
]

place_of_table : holds_up_to (λ i. place_of (crc_table i / 2 ^ 24) == i) 255 ≡ true
unfolding holds_up_to place_of crc_table
place_of_table = refl

place_of-crc_table : (i : ℕ) → i < 256 → place_of (crc_table i / 2 ^ 24) ≡ i
place_of-crc_table i h = (==_iff _ i).0 (holds_up_to_sound _ 255 i (omega arith) place_of_table)

-- What is left of a register behind its `j` low bytes.
abbrev high : ℕ → ℕ → ℕ
high zero c = c
high (suc j) c = high j (c / 256)

high-bit_xor : (j a b : ℕ) → high j (bit_xor a b) ≡ bit_xor (high j a) (high j b)
high-bit_xor zero a b = refl
high-bit_xor (suc j) a b = ap (high j) (bit_xor-div_pow 8 a b) ∙ high-bit_xor j (a / 256) (b / 256)

top_of_high : (j x y : ℕ) → j ≤ 3 → high j x ≡ high j y → x / 2 ^ 24 ≡ y / 2 ^ 24
top_of_high zero x y h e = ap (λ t. t / 2 ^ 24) e
top_of_high (suc zero) x y h e = omega arith
top_of_high (suc (suc zero)) x y h e = omega arith
top_of_high (suc (suc (suc zero))) x y h e = omega arith
top_of_high (suc (suc (suc (suc j)))) x y h e = absurd (omega arith)

abbrev pub IsWord : ℕ → Type 0
IsWord c = c < 2 ^ 32

place-lt : (c b : ℕ) → IsByte b → place c b < 256
unfolding place
place-lt c b h = bit_xor-lt_pow 8 (omega arith) h

crc_step-lt : (c b : ℕ) → IsByte b → IsWord c → IsWord (crc_step c b)
unfolding crc_step crc_loop
crc_step-lt c b h w = crc_loop-lt c (b ∷ []) (h, tt) w

crc_step-top :
    (c b : ℕ) → IsByte b → IsWord c → crc_step c b / 2 ^ 24 ≡ crc_table (place c b) / 2 ^ 24
crc_step-top c b h w =
    let empty : c / 256 / 2 ^ 24 ≡ 0 = omega arith in
    ap (λ t. t / 2 ^ 24) (crc_step-place c b h)
    ∙ bit_xor-div_pow 24 (crc_table (place c b)) (c / 256)
    ∙ rw empty (bit_xor_comm _ 0 ∙ zero-bit_xor _)

-- From a step back to what it was made from, as far as its high bytes say.
crc_step_back :
    (j c c' b b' : ℕ)
    → j ≤ 3
    → IsByte b
    → IsByte b'
    → IsWord c
    → IsWord c'
    → high j (crc_step c b) ≡ high j (crc_step c' b')
    → (place c b ≡ place c' b') × (high (suc j) c ≡ high (suc j) c')
crc_step_back j c c' b b' small h h' w w' e =
    let tops : crc_table (place c b) / 2 ^ 24 ≡ crc_table (place c' b') / 2 ^ 24 = cc (
      top_of_high j (crc_step c b) (crc_step c' b') small e,
      crc_step-top c b h w,
      crc_step-top c' b' h' w',
    ) in
    let same : place c b ≡ place c' b' = cc (
      tops,
      place_of-crc_table (place c b) (place-lt c b h),
      place_of-crc_table (place c' b') (place-lt c' b' h'),
    ) in
    let folded : bit_xor (high j (crc_table (place c b))) (high j (c / 256))
        ≡ bit_xor (high j (crc_table (place c b))) (high j (c' / 256)) =
      cc (
        e,
        same,
        crc_step-place c b h,
        crc_step-place c' b' h',
        high-bit_xor j (crc_table (place c b)) (c / 256),
        high-bit_xor j (crc_table (place c' b')) (c' / 256),
      ) in
    (same, bit_xor_cancel _ folded)

crc_loop_back :
    (j c c' : ℕ) (w w' : List ℕ)
    → length w ≡ length w'
    → j + length w ≤ 4
    → All IsByte w
    → All IsByte w'
    → IsWord c
    → IsWord c'
    → high j (crc_loop c w) ≡ high j (crc_loop c' w')
    → high (j + length w) c ≡ high (j + length w) c'
unfolding crc_loop crc_step
crc_loop_back j c c' [] [] same room h h' f f' e = let z : j + 0 ≡ j = omega arith in rw z e
crc_loop_back j c c' [] (b' ∷ w') same room h h' f f' e = absurd (omega arith)
crc_loop_back j c c' (b ∷ w) [] same room h h' f f' e = absurd (omega arith)
crc_loop_back j c c' (b ∷ w) (b' ∷ w') same room h h' f f' e =
    let tail =
      crc_loop_back j (crc_step c b) (crc_step c' b') w w' (omega arith) (omega arith) h.1 h'.1
        (crc_step-lt c b h.0 f) (crc_step-lt c' b' h'.0 f') e in
    let z : j + suc (length w) ≡ suc (j + length w) = omega arith in
    rw z (crc_step_back (j + length w) c c' b b' (omega arith) h.0 h'.0 f f' tail).1

-- Up to four bytes are determined by the register before and after them.
pub crc_loop_window :
    (c : ℕ) (w w' : List ℕ)
    → length w ≡ length w'
    → length w ≤ 4
    → All IsByte w
    → All IsByte w'
    → IsWord c
    → crc_loop c w ≡ crc_loop c w'
    → w ≡ w'
unfolding crc_loop crc_step
crc_loop_window c [] [] same room h h' f e = refl
crc_loop_window c [] (b' ∷ w') same room h h' f e = absurd (omega arith)
crc_loop_window c (b ∷ w) [] same room h h' f e = absurd (omega arith)
crc_loop_window c (b ∷ w) (b' ∷ w') same room h h' f e =
    let tail =
      crc_loop_back 0 (crc_step c b) (crc_step c b') w w' (omega arith) (omega arith) h.1 h'.1
        (crc_step-lt c b h.0 f) (crc_step-lt c b' h'.0 f) e in
    let z : 0 + length w ≡ length w = omega arith in
    let places = (crc_step_back (length w) c c b b' (omega arith) h.0 h'.0 f f (rw z at tail)).0 in
    let byte : b ≡ b' = bit_xor_cancel (c % 256) (unfold place in places) in
    let rest =
      crc_loop_window (crc_step c b) w w' (omega arith) (omega arith) h.1 h'.1
        (crc_step-lt c b h.0 f) (rw (← byte) at e) in
    cc (byte, rest)

-- Bytes that follow do not bring different registers together again.
pub crc_loop_after :
    (c c' : ℕ) (bs : List ℕ)
    → All IsByte bs
    → IsWord c
    → IsWord c'
    → crc_loop c bs ≡ crc_loop c' bs
    → c ≡ c'
unfolding crc_loop crc_step place
crc_loop_after c c' [] h f f' e = e
crc_loop_after c c' (b ∷ bs) h f f' e =
    let stepped =
      crc_loop_after (crc_step c b) (crc_step c' b) bs h.1 (crc_step-lt c b h.0 f)
        (crc_step-lt c' b h.0 f') e in
    let (places, upper) = crc_step_back 0 c c' b b (omega arith) h.0 h.0 f f' stepped in
    let low : c % 256 ≡ c' % 256 =
      bit_xor_cancel b (bit_xor_comm b (c % 256) ∙ places ∙ bit_xor_comm (c' % 256) b) in
    omega (arith, upper, low)

pub crc_loop-append : (c : ℕ) (xs ys : List ℕ) → crc_loop c (xs ++ ys) ≡ crc_loop (crc_loop c xs) ys
unfolding crc_loop crc_step
crc_loop-append c [] ys = refl
crc_loop-append c (x ∷ xs) ys = crc_loop-append (crc_step c x) xs ys
