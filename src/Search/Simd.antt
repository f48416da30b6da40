-- ===== src/Search/Simd.antt =====
-- src/core/search/SimdSearch.cpp, SimdSearchAvx2.cpp: substring search by blocks of lanes. A mask of
-- `movemask` is the list of its bits, lowest first, two for each 16-bit lane; `npos` is `none`.
pub mod Mask
pub mod First
pub mod Scalar
use winindex.Prelude.{
  ℕ, zero, suc, ◌+◌, ◌-◌, ◌/◌, Bool, true, false, ◌&&◌, Option, none, some, List, [], ◌∷◌, map, leb,
  ltb, ◌==◌, if◌then◌else◌, length, take, drop, WString, starts_with,
}

-- `_BitScanForward`: the place of the lowest set bit.
unfoldable pub bit_scan_forward : List Bool → Option ℕ
bit_scan_forward [] = none
bit_scan_forward (true ∷ bs) = some 0
bit_scan_forward (false ∷ bs) = elim (bit_scan_forward bs) [ none ↦ none | some i ↦ some (suc i) ]

-- `mask &= mask - 1` clears the lowest set bit.
unfoldable pub clear_lowest : List Bool → List Bool
clear_lowest [] = []
clear_lowest (true ∷ bs) = false ∷ bs
clear_lowest (false ∷ bs) = false ∷ clear_lowest bs

-- `_mm_movemask_epi8(_mm_cmpeq_epi16(chunk, vFirst))`
abbrev pub movemask : List Bool → List Bool
movemask [] = []
movemask (l ∷ ls) = l ∷ (l ∷ movemask ls)

-- The inner loop: `while (mask)`, with the test of a lane as a parameter.
unfoldable pub mask_loop : ℕ → (ℕ → Bool) → List Bool → Option ℕ
mask_loop zero test mask = none
mask_loop (suc fuel) test mask = elim (bit_scan_forward mask) [
  | none ↦ none
  | some bit ↦
      let rest = mask_loop fuel test (clear_lowest (clear_lowest mask)) in
      if test (bit / 2) then some (bit / 2) else rest
]

module _ (hay needle : WString) where
  -- `wmemcmp(hay + p, needle, needleLen) == 0`
  abbrev pub matches_at : ℕ → Bool
  matches_at p = starts_with (drop p hay) needle

  abbrev pub head_is : WString → ℕ → Bool
  head_is [] c = false
  head_is (x ∷ xs) c = x == c

  -- `while (p < end)`, `n` characters before the end.
  unfoldable pub tail_loop : ℕ → ℕ → ℕ → Option ℕ
  tail_loop first zero p = none
  tail_loop first (suc n) p =
      let rest = tail_loop first n (suc p) in
      if head_is (drop p hay) first && matches_at p then some p else rest

  abbrev pub lanes : ℕ → ℕ → ℕ → List Bool
  lanes width first p = map (λ c. c == first) (take width (drop p hay))

  -- One block at `p`: the offset in it at which the needle stands.
  unfoldable pub block : ℕ → ℕ → ℕ → Option ℕ
  unfolding mask_loop
  block width first p =
      let mask = movemask (lanes width first p) in
      mask_loop (length mask) (λ off. matches_at (p + off)) mask

  abbrev pub shifted : ℕ → Option ℕ → Option ℕ → Option ℕ
  shifted p none rest = rest
  shifted p (some off) rest = some (p + off)

  -- `while (p + width <= end)`, then the rest one by one; the fuel counts blocks.
  unfoldable pub block_loop : ℕ → ℕ → ℕ → ℕ → ℕ → Option ℕ
  unfolding block tail_loop
  block_loop zero width first end p = none
  block_loop (suc fuel) width first end p =
      let rest = block_loop fuel width first end (p + width) in
      let here = shifted p (block width first p) rest in
      if leb (p + width) end then here else tail_loop first (end - p) p

-- `Sse2Find` and `Avx2Find` are this search with blocks of 8 and 16 lanes.
unfoldable pub block_find : ℕ → WString → WString → Option ℕ
block_find width hay [] = some 0
block_find width hay (c ∷ needle) =
    let end = length hay - length (c ∷ needle) + 1 in
    if ltb (length hay) (length (c ∷ needle))
    then none
    else block_loop hay (c ∷ needle) (length hay) width c end 0

unfoldable pub sse2_find : WString → WString → Option ℕ
sse2_find = block_find 8

unfoldable pub avx2_find : WString → WString → Option ℕ
avx2_find = block_find 16

-- The dispatch on `g_simdCaps.avx2`.
unfoldable pub simd_find_substring : Bool → WString → WString → Option ℕ
simd_find_substring avx2 hay needle = if avx2 then avx2_find hay needle else sse2_find hay needle

-- `ScalarFindInsensitive`, called by `SimdFindSubstringInsensitive`.
module _ (towlower : ℕ → ℕ) where
  -- The inner loop: every character of the needle agrees.
  unfoldable pub agrees : WString → WString → Bool
  agrees hay [] = true
  agrees [] (n ∷ needle) = false
  agrees (c ∷ hay) (n ∷ needle) = (towlower c == towlower n) && agrees hay needle

  unfoldable pub scalar_loop : WString → WString → ℕ → ℕ → Option ℕ
  unfolding agrees
  scalar_loop hay needle zero i = none
  scalar_loop hay needle (suc n) i =
      let rest = scalar_loop hay needle n (i + 1) in
      if agrees (drop i hay) needle then some i else rest

  unfoldable pub scalar_find_insensitive : WString → WString → Option ℕ
  unfolding scalar_loop
  scalar_find_insensitive hay [] = some 0
  scalar_find_insensitive hay (n ∷ needle) =
      if ltb (length hay) (length (n ∷ needle))
      then none
      else scalar_loop hay (n ∷ needle) (length hay - length (n ∷ needle) + 1) 0
