-- ===== src/Search/Simd/First.antt =====
-- The block searches find the first occurrence, for every width and at every length.
use winindex.Prelude.{
  ℕ, zero, suc, ◌+◌, ◌-◌, ◌≤◌, ◌<◌, ◌≡◌, refl, ap, inl, inr, Bool, true, false, ◌&&◌, Option, none,
  some, [], ◌∷◌, map, arith, if◌then◌else◌, length, take, drop, leb, ltb, ◌==◌, Bool-cases, WString,
  starts_with, leb→le, ltb→lt, length-drop, drop-uncons,
}
use native.Mathlib.Nat.{zero-add, add-zero, suc-add}
use winindex.Search.Simd.{
  head_is, tail_loop, block, block_loop, block_find, sse2_find, avx2_find, simd_find_substring,
  matches_at, shifted,
}
use winindex.Search.Simd.Mask.{first_lane, mask_loop-first_lane}

abbrev next_place : Option ℕ → Option ℕ
next_place none = none
next_place (some i) = some (suc i)

abbrev or_else : Option ℕ → Option ℕ → Option ℕ
or_else none o = o
or_else (some i) o = some i

-- The reference: the first place from which the text starts with the needle.
unfoldable pub first_occurrence : WString → WString → Option ℕ
first_occurrence needle [] = if starts_with [] needle then some 0 else none
first_occurrence needle (c ∷ hay) =
    let later = next_place (first_occurrence needle hay) in
    if starts_with (c ∷ hay) needle then some 0 else later

module _ (hay needle : WString) where
  -- The first match among the `n` places from `p` on.
  abbrev pub first_in : ℕ → ℕ → Option ℕ
  first_in zero p = none
  first_in (suc n) p =
      let rest = first_in n (suc p) in if matches_at hay needle p then some p else rest

  first_in-add : (m n p : ℕ) → first_in (m + n) p ≡ or_else (first_in m p) (first_in n (p + m))
  first_in-add zero n p = rw (zero-add, add-zero)
  first_in-add (suc m) n p =
      let e : suc p + m ≡ p + suc m = omega arith in
      rw (suc-add, first_in-add m n (suc p), e) (ground arith)

unfoldable pub shift_by : ℕ → Option ℕ → Option ℕ
shift_by p none = none
shift_by p (some i) = some (p + i)

starts_with_short : (s needle : WString) → length s < length needle → starts_with s needle ≡ false
starts_with_short s [] h = absurd (omega arith)
starts_with_short [] (n ∷ needle) h = refl
starts_with_short (c ∷ s) (n ∷ needle) h = ground (arith, starts_with_short s needle)

pub first_occurrence_short :
    (s needle : WString) → length s < length needle → first_occurrence needle s ≡ none
unfolding first_occurrence
first_occurrence_short [] needle h = rw (starts_with_short [] needle h)
first_occurrence_short (c ∷ s) needle h =
    rw (starts_with_short (c ∷ s) needle h, first_occurrence_short s needle (omega arith))

next_step :
    (p : ℕ) (here : Bool) (o : Option ℕ)
    → (if here then some p else shift_by (suc p) o)
      ≡ shift_by p (if here then some 0 else next_place o)
unfolding shift_by
next_step p true o = ap some (omega arith)
next_step p false none = refl
next_step p false (some i) = ap some (omega arith)

module _ (hay : WString) (c : ℕ) (needle : WString) where
  tail_loop-first_in : (n p : ℕ) → tail_loop hay (c ∷ needle) c n p ≡ first_in hay (c ∷ needle) n p
  unfolding tail_loop
  tail_loop-first_in zero p = refl
  tail_loop-first_in (suc n) p = rw (tail_loop-first_in n (suc p)) (same (drop p hay))
    where
      same :
          (s : WString)
          → (if head_is hay (c ∷ needle) s c && starts_with s (c ∷ needle)
              then some p
              else first_in hay (c ∷ needle) n (suc p))
            ≡ (if starts_with s (c ∷ needle) then some p else first_in hay (c ∷ needle) n (suc p))
      same [] = refl
      same (x ∷ s) = ground arith

  -- One lane against one place: the lane's test repeats the needle's first character.
  lane_step :
      (p k x : ℕ) (here s : WString) (o o' rest : Option ℕ)
      → here ≡ x ∷ s
      → shifted hay (c ∷ needle) p o rest ≡ or_else o' rest
      → shifted hay
          (c ∷ needle)
          p
          (if (x == c) && starts_with here (c ∷ needle) then some k else o)
          rest
        ≡ or_else (if starts_with (x ∷ s) (c ∷ needle) then some (p + k) else o') rest
  lane_step p k x here s none none rest e h = rw e (ground arith)
  lane_step p k x here s none (some i) rest e h = rw e (ground arith)
  lane_step p k x here s (some i) none rest e h = rw e (ground arith)
  lane_step p k x here s (some i) (some j) rest e h = rw e (ground arith)

  -- `m` lanes from `k` on within the block at `p` are the places from `p + k` on.
  lanes-first_in :
      (p m k : ℕ) (rest : Option ℕ)
      → p + k + m ≤ length hay
      → shifted hay
          (c ∷ needle)
          p
          (first_lane
            (λ off. matches_at hay (c ∷ needle) (p + off))
            k
            (map (λ x. x == c) (take m (drop (p + k) hay))))
          rest
        ≡ or_else (first_in hay (c ∷ needle) m (p + k)) rest
  lanes-first_in p zero k rest h = refl
  lanes-first_in p (suc m) k rest h =
      let (x, e) = drop-uncons (p + k) hay (omega arith) in
      let next : suc (p + k) ≡ p + suc k = omega arith in
      let ih = lanes-first_in p m (suc k) rest (omega arith) in
      let e' : drop (p + k) hay ≡ x ∷ drop (p + suc k) hay = rw next at e in
      rw e (rw next (lane_step p k x (drop (p + k) hay) (drop (p + suc k) hay) _ _ rest e' ih))

  block-first_in :
      (width p : ℕ) (rest : Option ℕ)
      → p + width ≤ length hay
      → shifted hay (c ∷ needle) p (block hay (c ∷ needle) width c p) rest
        ≡ or_else (first_in hay (c ∷ needle) width p) rest
  unfolding block
  block-first_in width p rest h =
      rw mask_loop-first_lane (rw add-zero at (lanes-first_in p width 0 rest (omega arith)))

  block_loop-first_in :
      (fuel width end p : ℕ)
      → 0 < width
      → end ≤ length hay
      → end - p ≤ fuel
      → block_loop hay (c ∷ needle) fuel width c end p ≡ first_in hay (c ∷ needle) (end - p) p
  unfolding block_loop
  block_loop-first_in zero width end p w h f = let e : end - p ≡ 0 = omega arith in rw e
  block_loop-first_in (suc fuel) width end p w h f = elim (Bool-cases (leb (p + width) end)) [
    | inr over ↦ rw over (tail_loop-first_in (end - p) p)
    | inl fits ↦
        let inside = leb→le _ _ fits in
        let split : end - p ≡ width + (end - (p + width)) = omega arith in
        rw fits (
          rw (split, first_in-add hay (c ∷ needle) width (end - (p + width)) p)
            (rw (block_loop-first_in fuel width end (p + width) w h (omega arith))
              (block-first_in width p _ (omega arith))))
  ]

  pub first_in-first_occurrence :
      (n p : ℕ)
      → p + n ≡ length hay - length (c ∷ needle) + 1
      → length (c ∷ needle) ≤ length hay
      → first_in hay (c ∷ needle) n p ≡ shift_by p (first_occurrence (c ∷ needle) (drop p hay))
  unfolding shift_by first_occurrence
  first_in-first_occurrence zero p e h =
      rw (first_occurrence_short (drop p hay) (c ∷ needle) (omega (arith, length-drop p hay)))
  first_in-first_occurrence (suc n) p e h =
      let (x, d) = drop-uncons p hay (omega arith) in
      rw (first_in-first_occurrence n (suc p) (omega arith) h, d)
        (next_step p (starts_with (x ∷ drop (suc p) hay) (c ∷ needle)) _)

pub shift_by_zero : (o : Option ℕ) → shift_by 0 o ≡ o
unfolding shift_by
shift_by_zero none = refl
shift_by_zero (some i) = ap some (zero-add i)

-- A block search of any positive width returns the first occurrence of the needle, and `npos`
-- exactly where there is none: at every length, also where the text is shorter than a block.
pub block_find-first_occurrence :
    (width : ℕ) (hay needle : WString)
    → 0 < width
    → block_find width hay needle ≡ first_occurrence needle hay
unfolding block_find
block_find-first_occurrence width [] [] w = unfold first_occurrence in refl
block_find-first_occurrence width (x ∷ hay) [] w = unfold first_occurrence in refl
block_find-first_occurrence width hay (c ∷ needle) w =
    elim (Bool-cases (ltb (length hay) (length (c ∷ needle)))) [
      | inl short ↦ rw (short, first_occurrence_short hay (c ∷ needle) (ltb→lt _ _ short))
      | inr long ↦
          let enough : length (c ∷ needle) ≤ length hay = ground arith in
          let end = length hay - length (c ∷ needle) + 1 in
          let whole : end - 0 ≡ end = omega arith in
          rw (
            long,
            block_loop-first_in hay c needle (length hay) width end 0 w (omega arith) (omega arith),
            whole,
            first_in-first_occurrence hay c needle end 0 (omega arith) enough,
            shift_by_zero,
          )
    ]

-- The SSE2 and the AVX2 path of `SimdFindSubstring` give the first occurrence of the needle on
-- every text and needle, and `npos` exactly where there is none.
pub simd_find_substring-first_occurrence :
    (avx2 : Bool) (hay needle : WString)
    → simd_find_substring avx2 hay needle ≡ first_occurrence needle hay
unfolding simd_find_substring sse2_find avx2_find
simd_find_substring-first_occurrence true hay needle =
    block_find-first_occurrence 16 hay needle (omega arith)
simd_find_substring-first_occurrence false hay needle =
    block_find-first_occurrence 8 hay needle (omega arith)
