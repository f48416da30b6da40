-- ===== src/Search/Simd/Mask.antt =====
-- The mask loop visits the matching lanes in order.
use winindex.Prelude.{
  ℕ, zero, suc, ◌*◌, ◌/◌, ◌≤◌, ◌≡◌, refl, ap, Bool, true, false, ◌&&◌, Option, none, some, List, [],
  ◌∷◌, arith, if◌then◌else◌, length,
}
use winindex.Search.Simd.{bit_scan_forward, clear_lowest, movemask, mask_loop}

-- The first lane from `k` on that is set and passes the test.
abbrev pub first_lane : (ℕ → Bool) → ℕ → List Bool → Option ℕ
first_lane test k [] = none
first_lane test k (l ∷ ls) =
    let rest = first_lane test (suc k) ls in if l && test k then some k else rest

-- The cleared bits of `k` lanes in front of a mask.
abbrev padded : ℕ → List Bool → List Bool
padded zero bs = bs
padded (suc k) bs = false ∷ (false ∷ padded k bs)

padded-snoc : (k : ℕ) (bs : List Bool) → padded k (false ∷ (false ∷ bs)) ≡ padded (suc k) bs
padded-snoc zero bs = refl
padded-snoc (suc k) bs = ap (λ t. false ∷ (false ∷ t)) (padded-snoc k bs)

scan-padded : (k : ℕ) (bs : List Bool) → bit_scan_forward (padded k (true ∷ bs)) ≡ some (2 * k)
unfolding bit_scan_forward
scan-padded zero bs = refl
scan-padded (suc k) bs = rw (scan-padded k bs) (ap some (omega arith))

scan-clear : (k : ℕ) → bit_scan_forward (padded k []) ≡ none
unfolding bit_scan_forward
scan-clear zero = refl
scan-clear (suc k) = rw (scan-clear k)

clear-padded :
    (k : ℕ) (bs : List Bool)
    → clear_lowest (clear_lowest (padded k (true ∷ (true ∷ bs)))) ≡ padded (suc k) bs
unfolding clear_lowest
clear-padded zero bs = refl
clear-padded (suc k) bs = ap (λ t. false ∷ (false ∷ t)) (clear-padded k bs)

mask_loop-padded :
    (test : ℕ → Bool) (ls : List Bool) (k fuel : ℕ)
    → length ls ≤ fuel
    → mask_loop fuel test (padded k (movemask ls)) ≡ first_lane test k ls
unfolding mask_loop
mask_loop-padded test [] k zero h = refl
mask_loop-padded test [] k (suc fuel) h = rw (scan-clear k, mask_loop)
mask_loop-padded test (false ∷ ls) k fuel h =
    rw (padded-snoc k (movemask ls)) (mask_loop-padded test ls (suc k) fuel (omega arith))
mask_loop-padded test (true ∷ ls) k zero h = absurd (omega arith)
mask_loop-padded test (true ∷ ls) k (suc fuel) h =
    let half : 2 * k / 2 ≡ k = omega arith in
    rw (scan-padded k (true ∷ movemask ls), clear-padded k (movemask ls), half, mask_loop)
      (rw (mask_loop-padded test ls (suc k) fuel (omega arith)))

length-movemask : (ls : List Bool) → length (movemask ls) ≡ 2 * length ls
length-movemask [] = refl
length-movemask (l ∷ ls) = omega (arith, length-movemask ls)

pub mask_loop-first_lane :
    (test : ℕ → Bool) (ls : List Bool)
    → mask_loop (length (movemask ls)) test (movemask ls) ≡ first_lane test 0 ls
mask_loop-first_lane test ls =
    mask_loop-padded test ls 0 (length (movemask ls)) (omega (arith, length-movemask ls))
