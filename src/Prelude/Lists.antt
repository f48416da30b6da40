-- ===== src/Prelude/Lists.antt =====
-- Lists measured, cut and searched by native numbers, under the library's names.
use Prim.Native.Nat.{ℕ, zero, suc, ◌+◌, ◌-◌, ◌≤◌, ◌<◌, min}
use mathlib.Core.Path.{◌≡◌, refl, sym, ap, ◌∙◌}
use mathlib.Core.List.{List, [], ◌∷◌, ◌++◌, map, append_assoc}
use mathlib.Core.Bool.{Bool, true, false, ◌&&◌, ◌||◌}
use mathlib.Core.Option.{Option, none, some}
use native.Mathlib.Nat.{zero-add, suc-add}
use native.Mathlib.Omega.{arith}
use winindex.Prelude.Tests.{leb, if◌then◌else◌}

module _ {ℓ} {A : Type ℓ} where
  abbrev pub length : List A → ℕ
  length [] = 0
  length (x ∷ xs) = suc (length xs)

  abbrev pub get_elem? : List A → ℕ → Option A
  get_elem? [] i = none
  get_elem? (x ∷ xs) zero = some x
  get_elem? (x ∷ xs) (suc i) = get_elem? xs i

  abbrev pub take : ℕ → List A → List A
  take zero xs = []
  take (suc n) [] = []
  take (suc n) (x ∷ xs) = x ∷ take n xs

  abbrev pub drop : ℕ → List A → List A
  drop zero xs = xs
  drop (suc n) [] = []
  drop (suc n) (x ∷ xs) = drop n xs

  abbrev pub replicate : ℕ → A → List A
  replicate zero a = []
  replicate (suc n) a = a ∷ replicate n a

  -- A view of `len` items from `off` on; `none` where it would leave the list.
  abbrev pub slice? : List A → ℕ → ℕ → Option (List A)
  slice? xs off len = if leb (off + len) (length xs) then some (take len (drop off xs)) else none

  abbrev pub any : (A → Bool) → List A → Bool
  any p [] = false
  any p (x ∷ xs) = p x || any p xs

  abbrev pub all : (A → Bool) → List A → Bool
  all p [] = true
  all p (x ∷ xs) = p x && all p xs

  abbrev pub filter : (A → Bool) → List A → List A
  filter p [] = []
  filter p (x ∷ xs) = if p x then x ∷ filter p xs else filter p xs

  abbrev pub All {κ} : (A → Type κ) → List A → Type κ
  All P [] = Unit {κ}
  All P (x ∷ xs) = P x × All P xs

module _ {ℓ} {A : Type ℓ} where
  pub length-append : (xs ys : List A) → length (xs ++ ys) ≡ length xs + length ys
  length-append [] ys = omega arith
  length-append (x ∷ xs) ys = omega (arith, length-append xs ys)

  pub take-append-drop : (n : ℕ) (xs : List A) → take n xs ++ drop n xs ≡ xs
  take-append-drop zero xs = refl
  take-append-drop (suc n) [] = refl
  take-append-drop (suc n) (x ∷ xs) = rw (take-append-drop n xs)

  pub length-take : (n : ℕ) (xs : List A) → length (take n xs) ≡ min n (length xs)
  length-take zero xs = omega arith
  length-take (suc n) [] = omega arith
  length-take (suc n) (x ∷ xs) = omega (arith, length-take n xs)

  pub length-drop : (n : ℕ) (xs : List A) → length (drop n xs) ≡ length xs - n
  length-drop zero xs = omega arith
  length-drop (suc n) [] = omega arith
  length-drop (suc n) (x ∷ xs) = omega (arith, length-drop n xs)

  pub length-map {κ} : {B : Type κ} (f : A → B) (xs : List A) → length (map f xs) ≡ length xs
  length-map f [] = refl
  length-map f (x ∷ xs) = ap suc (length-map f xs)

  -- A cut that ends within the front does not see what is appended.
  pub take-append : (n : ℕ) (xs ys : List A) → n ≤ length xs → take n (xs ++ ys) ≡ take n xs
  take-append zero xs ys h = refl
  take-append (suc n) [] ys h = absurd (omega arith)
  take-append (suc n) (x ∷ xs) ys h = ap (λ t. x ∷ t) (take-append n xs ys (omega arith))

  pub drop-append : (n : ℕ) (xs ys : List A) → n ≤ length xs → drop n (xs ++ ys) ≡ drop n xs ++ ys
  drop-append zero xs ys h = refl
  drop-append (suc n) [] ys h = absurd (omega arith)
  drop-append (suc n) (x ∷ xs) ys h = drop-append n xs ys (omega arith)

  pub take-length : (xs : List A) → take (length xs) xs ≡ xs
  take-length [] = refl
  take-length (x ∷ xs) = ap (λ t. x ∷ t) (take-length xs)

  pub drop-length : (xs ys : List A) → drop (length xs) (xs ++ ys) ≡ ys
  drop-length [] ys = refl
  drop-length (x ∷ xs) ys = drop-length xs ys

  pub take-length-append : (xs ys : List A) → take (length xs) (xs ++ ys) ≡ xs
  take-length-append [] ys = refl
  take-length-append (x ∷ xs) ys = ap (λ t. x ∷ t) (take-length-append xs ys)

  pub All-append {κ} : (P : A → Type κ) (xs ys : List A) → All P xs → All P ys → All P (xs ++ ys)
  All-append P [] ys h k = k
  All-append P (x ∷ xs) ys h k = (h.0, All-append P xs ys h.1 k)

  pub All-map {κ κ'} :
      {P : A → Type κ} {Q : A → Type κ'} (f : (a : A) → P a → Q a) (xs : List A)
      → All P xs
      → All Q xs
  All-map f [] h = tt
  All-map f (x ∷ xs) h = (f x h.0, All-map f xs h.1)

  pub take-drop-append :
      (xs ys : List A) (off len : ℕ)
      → off + len ≤ length xs
      → take len (drop off (xs ++ ys)) ≡ take len (drop off xs)
  take-drop-append xs ys off len h =
      rw (drop-append off xs ys (omega arith))
        (take-append len (drop off xs) ys (omega (arith, length-drop off xs)))

  pub get_elem?-append_length :
      (xs : List A) (y : A) (ys : List A) → get_elem? (xs ++ (y ∷ ys)) (length xs) ≡ some y
  get_elem?-append_length [] y ys = refl
  get_elem?-append_length (x ∷ xs) y ys = get_elem?-append_length xs y ys

  pub get_elem?-append_left :
      (xs ys : List A) (i : ℕ) → i < length xs → get_elem? (xs ++ ys) i ≡ get_elem? xs i
  get_elem?-append_left [] ys i h = elim h [ ]
  get_elem?-append_left (x ∷ xs) ys zero h = refl
  get_elem?-append_left (x ∷ xs) ys (suc i) h = get_elem?-append_left xs ys i (omega arith)

  -- Within bounds there is an element, and it has what all have.
  pub get_elem?-All {κ} :
      (P : A → Type κ) (xs : List A) (i : ℕ)
      → i < length xs
      → All P xs
      → (x : A) × (get_elem? xs i ≡ some x) × P x
  get_elem?-All P [] i h w = elim h [ ]
  get_elem?-All P (x ∷ xs) zero h w = (x, refl, w.0)
  get_elem?-All P (x ∷ xs) (suc i) h w = get_elem?-All P xs i (omega arith) w.1

  pub slice?-eq_some :
      (xs : List A) (off len : ℕ)
      → off + len ≤ length xs
      → slice? xs off len ≡ some (take len (drop off xs))
  slice?-eq_some xs off len h = ground arith

  -- A view of what was appended.
  pub slice?-append_right : (xs ys : List A) → slice? (xs ++ ys) (length xs) (length ys) ≡ some ys
  slice?-append_right xs ys =
      slice?-eq_some (xs ++ ys) (length xs) (length ys) (omega (arith, length-append xs ys))
      ∙ ap some (ap (take (length ys)) (drop-length xs ys) ∙ take-length ys)

  -- A view of the front is not moved by an append.
  pub slice?-append_left :
      (xs ys : List A) (off len : ℕ)
      → off + len ≤ length xs
      → slice? (xs ++ ys) off len ≡ slice? xs off len
  slice?-append_left xs ys off len h =
      slice?-eq_some (xs ++ ys) off len (omega (arith, length-append xs ys))
      ∙ ap some (take-drop-append xs ys off len h)
      ∙ sym (slice?-eq_some xs off len h)

  pub drop-nil : (n : ℕ) → drop {A = A} n [] ≡ []
  drop-nil zero = refl
  drop-nil (suc n) = refl

  pub drop-add : (a b : ℕ) (xs : List A) → drop (a + b) xs ≡ drop b (drop a xs)
  drop-add zero b xs = rw zero-add
  drop-add (suc a) b [] = drop-nil (suc a + b) ∙ sym (drop-nil b)
  drop-add (suc a) b (x ∷ xs) = rw suc-add (drop-add a b xs)

  -- The tail of what was appended, from `k` on.
  pub slice?-append_tail :
      (xs ys : List A) (k : ℕ)
      → k ≤ length ys
      → slice? (xs ++ ys) (length xs + k) (length ys - k) ≡ some (drop k ys)
  slice?-append_tail xs ys k h =
      slice?-eq_some (xs ++ ys) (length xs + k) (length ys - k) (omega (arith, length-append xs ys))
      ∙ ap some (
          ap (take (length ys - k))
            (drop-add (length xs) k (xs ++ ys) ∙ ap (drop k) (drop-length xs ys))
          ∙ rw (← length-drop k ys) (take-length (drop k ys)))

  pub drop-uncons :
      (i : ℕ) (xs : List A) → i < length xs → (x : A) × (drop i xs ≡ x ∷ drop (suc i) xs)
  drop-uncons i [] h = absurd (omega arith)
  drop-uncons zero (x ∷ xs) h = (x, refl)
  drop-uncons (suc i) (x ∷ xs) h = drop-uncons i xs (omega arith)

  pub drop-all : (n : ℕ) (xs : List A) → length xs ≤ n → drop n xs ≡ []
  drop-all n [] h = drop-nil n
  drop-all zero (x ∷ xs) h = absurd (omega arith)
  drop-all (suc n) (x ∷ xs) h = drop-all n xs (omega arith)

  pub take-all : (n : ℕ) (xs : List A) → length xs ≤ n → take n xs ≡ xs
  take-all zero [] h = refl
  take-all (suc n) [] h = refl
  take-all zero (x ∷ xs) h = absurd (omega arith)
  take-all (suc n) (x ∷ xs) h = ap (λ t. x ∷ t) (take-all n xs (omega arith))

  -- `a` is one of the elements of a list that has it behind some front.
  abbrev pub In : A → List A → Type ℓ
  In a xs = (front : List A) × (back : List A) × (xs ≡ front ++ (a ∷ back))

  pub In-append_left : (a : A) (xs ys : List A) → In a xs → In a (xs ++ ys)
  In-append_left a xs ys (front, back, e) =
      (front, back ++ ys, rw e (append_assoc front (a ∷ back) ys))

  pub In-append_right : (a : A) (xs ys : List A) → In a ys → In a (xs ++ ys)
  In-append_right a xs ys (front, back, e) =
      (xs ++ front, back, rw e (sym (append_assoc xs front (a ∷ back))))

  pub All-In : (xs front : List A) → All (λ a. In a (front ++ xs)) xs
  All-In [] front = tt
  All-In (x ∷ xs) front =
      let shift = append_assoc front (x ∷ []) xs in
      ((front, xs, refl), rw shift at (All-In xs (front ++ (x ∷ []))))

  pub All-take {κ} : (P : A → Type κ) (n : ℕ) (xs : List A) → All P xs → All P (take n xs)
  All-take P zero xs h = tt
  All-take P (suc n) [] h = tt
  All-take P (suc n) (x ∷ xs) h = (h.0, All-take P n xs h.1)
