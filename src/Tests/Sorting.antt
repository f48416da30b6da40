-- ===== src/Tests/Sorting.antt =====
-- An insertion sort that keeps the promises of std::sort.
use mathlib.Core.List.{Perm}
use mathlib.Core.List.Perm
use winindex.Prelude.{
  ◌≡◌, Bool, false, List, [], ◌∷◌, if◌then◌else◌, All, Bool-cases, inl, inr, arith,
}
use winindex.Ui.Results.{DisplayEntry, Sorter}
use winindex.Ui.Results.Order.{StrictWeak, IsOrdered, Sorts}

module _ (less : DisplayEntry → DisplayEntry → Bool) where
  unfoldable pub insert : DisplayEntry → List DisplayEntry → List DisplayEntry
  insert x [] = x ∷ []
  insert x (y ∷ ys) = let rest = y ∷ insert x ys in if less y x then rest else x ∷ (y ∷ ys)

  unfoldable pub insertion_sort : List DisplayEntry → List DisplayEntry
  unfolding insert
  insertion_sort [] = []
  insertion_sort (x ∷ xs) = insert x (insertion_sort xs)

  insert-perm : (x : DisplayEntry) (l : List DisplayEntry) → Perm (insert x l) (x ∷ l)
  unfolding insert
  insert-perm x [] = Perm.rfl
  insert-perm x (y ∷ ys) = elim (Bool-cases (less y x)) [
    | inl below ↦ rw below (Perm.trans (Perm.cons y (insert-perm x ys)) (Perm.swap x y ys))
    | inr above ↦ rw above Perm.rfl
  ]

  insert-All :
      (P : DisplayEntry → Type 0) (x : DisplayEntry) (l : List DisplayEntry)
      → P x
      → All P l
      → All P (insert x l)
  unfolding insert
  insert-All P x [] p h = (p, tt)
  insert-All P x (y ∷ ys) p h = elim (Bool-cases (less y x)) [
    | inl below ↦ rw below (h.0, insert-All P x ys p h.1)
    | inr above ↦ rw above (p, h)
  ]

  module _ (weak : StrictWeak less) where
    below-All :
        (x y : DisplayEntry) (l : List DisplayEntry)
        → less y x ≡ false
        → All (λ z. less z y ≡ false) l
        → All (λ z. less z x ≡ false) l
    below-All x y [] p h = tt
    below-All x y (z ∷ l) p h = (ground (arith, weak.cotrans z y x, h.0), below-All x y l p h.1)

    insert-IsOrdered :
        (x : DisplayEntry) (l : List DisplayEntry) → IsOrdered less l → IsOrdered less (insert x l)
    unfolding insert
    insert-IsOrdered x [] o = (tt, tt)
    insert-IsOrdered x (y ∷ ys) o = elim (Bool-cases (less y x)) [
      | inl below ↦ rw below (
        insert-All (λ z. less z y ≡ false) x ys (weak.asym y x below) o.0,
        insert-IsOrdered x ys o.1,
      )
      | inr above ↦ rw above ((above, below-All x y ys above o.0), o)
    ]

    insertion_sort-sorts :
        (l : List DisplayEntry) → Perm (insertion_sort l) l × IsOrdered less (insertion_sort l)
    unfolding insertion_sort
    insertion_sort-sorts [] = (Perm.rfl, tt)
    insertion_sort-sorts (x ∷ xs) =
        let (p, o) = insertion_sort-sorts xs in
        (
          Perm.trans (insert-perm x (insertion_sort xs)) (Perm.cons x p),
          insert-IsOrdered x (insertion_sort xs) o,
        )

abbrev pub sorter : Sorter
sorter less l = insertion_sort less l

pub sorter-Sorts : Sorts sorter
sorter-Sorts less weak l = insertion_sort-sorts less weak l
