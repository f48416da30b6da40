-- ===== src/Search/Simd/Scalar.antt =====
-- The scalar search without regard to case, against the first occurrence.
use winindex.Prelude.{
  ℕ, zero, suc, ◌+◌, ◌-◌, ◌≡◌, ◌≤◌, refl, inl, inr, [], ◌∷◌, map, arith, length, length-map, drop,
  ltb, ltb→lt, Bool-cases, WString, starts_with,
}
use winindex.Search.Simd.{agrees, scalar_loop, scalar_find_insensitive}
use winindex.Search.Simd.First.{
  first_occurrence, first_in, first_in-first_occurrence, first_occurrence_short, shift_by_zero,
}

drop-map : (f : ℕ → ℕ) (i : ℕ) (s : WString) → drop i (map f s) ≡ map f (drop i s)
drop-map f zero s = refl
drop-map f (suc i) [] = refl
drop-map f (suc i) (c ∷ s) = drop-map f i s

module _ (towlower : ℕ → ℕ) where
  agrees-starts_with :
      (hay needle : WString)
      → agrees towlower hay needle ≡ starts_with (map towlower hay) (map towlower needle)
  unfolding agrees
  agrees-starts_with hay [] = refl
  agrees-starts_with [] (n ∷ needle) = refl
  agrees-starts_with (c ∷ hay) (n ∷ needle) = rw (agrees-starts_with hay needle)

  scalar_loop-first_in :
      (hay needle : WString) (n i : ℕ)
      → scalar_loop towlower hay needle n i ≡ first_in (map towlower hay) (map towlower needle) n i
  unfolding scalar_loop
  scalar_loop-first_in hay needle zero i = refl
  scalar_loop-first_in hay needle (suc n) i =
      let e : i + 1 ≡ suc i = omega arith in
      rw (
        e,
        scalar_loop-first_in hay needle n (suc i),
        drop-map towlower i hay,
        agrees-starts_with (drop i hay) needle,
      )

  -- The scalar search without regard to case gives the first occurrence of the lowercased needle
  -- in the lowercased text, and `npos` exactly where there is none.
  pub scalar_find_insensitive-first_occurrence :
      (hay needle : WString)
      → scalar_find_insensitive towlower hay needle
        ≡ first_occurrence (map towlower needle) (map towlower hay)
  unfolding scalar_find_insensitive
  scalar_find_insensitive-first_occurrence [] [] = unfold first_occurrence in refl
  scalar_find_insensitive-first_occurrence (x ∷ hay) [] = unfold first_occurrence in refl
  scalar_find_insensitive-first_occurrence hay (c ∷ needle) =
      let h = map towlower hay in
      let k = map towlower (c ∷ needle) in
      let lh = length-map towlower hay in
      let lk = length-map towlower (c ∷ needle) in
      elim (Bool-cases (ltb (length hay) (length (c ∷ needle)))) [
        | inl short ↦
            rw short
              (rw (first_occurrence_short h k (omega (arith, lh, lk, ltb→lt _ _ short))) refl)
        | inr long ↦
            let enough : length k ≤ length h = ground (arith, lh, lk) in
            rw (
              long,
              scalar_loop-first_in hay (c ∷ needle) (length hay - length (c ∷ needle) + 1) 0,
              first_in-first_occurrence h (towlower c) (map towlower needle)
                  (length hay - length (c ∷ needle) + 1) 0 (omega (arith, lh, lk)) enough,
              shift_by_zero,
            )
      ]
