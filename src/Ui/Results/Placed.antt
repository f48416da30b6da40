-- ===== src/Ui/Results/Placed.antt =====
-- The order that the list shows, by the columns that the rows have.
use winindex.Prelude.{
  ℕ, zero, suc, ◌≡◌, ◌≤◌, Bool, true, false, Option, none, some, List, [], ◌∷◌, arith, All, All-map,
}
use winindex.Search.Tokens.{wstr_lt}
use winindex.Ui.Results.{DisplayEntry, entry_less, compare_by, compare_wstr}
use winindex.Ui.Results.Order.{IsOrdered, IsSortedBy, wstr_lt-asym}

-- Name, path, size and time from the smaller to the larger, for a row and one behind it.
abbrev pub Grows : ℕ → DisplayEntry → DisplayEntry → Type 0
Grows zero a b = wstr_lt b.name a.name ≡ false
Grows (suc zero) a b = wstr_lt b.path a.path ≡ false
Grows (suc (suc zero)) a b = a.size ≤ b.size
Grows (suc (suc (suc zero))) a b = a.last_modified ≤ b.last_modified
Grows (suc (suc (suc (suc col)))) a b = Unit

abbrev pub Stands : ℕ → Bool → DisplayEntry → DisplayEntry → Type 0
Stands col false a b = Grows col a b
Stands col true a b = Grows col b a

abbrev pub AllStand : ℕ → Bool → List DisplayEntry → Type 0
AllStand col desc [] = Unit {0}
AllStand col desc (e ∷ es) = All (Stands col desc e) es × AllStand col desc es

-- No order is promised where no column is chosen.
abbrev pub ArePlaced : Option ℕ → Bool → List DisplayEntry → Type 0
ArePlaced none desc l = Unit {0}
ArePlaced (some col) desc l = AllStand col desc l

entry_less-Stands :
    (col : ℕ) (desc : Bool) (a b : DisplayEntry)
    → entry_less col desc b a ≡ false
    → Stands col desc a b
unfolding entry_less compare_by compare_wstr
entry_less-Stands zero false a b h = ground arith
entry_less-Stands zero true a b h = ground (arith, wstr_lt-asym b.name a.name)
entry_less-Stands (suc zero) false a b h = ground arith
entry_less-Stands (suc zero) true a b h = ground (arith, wstr_lt-asym b.path a.path)
entry_less-Stands (suc (suc zero)) false a b h = ground arith
entry_less-Stands (suc (suc zero)) true a b h = ground arith
entry_less-Stands (suc (suc (suc zero))) false a b h = ground arith
entry_less-Stands (suc (suc (suc zero))) true a b h = ground arith
entry_less-Stands (suc (suc (suc (suc col)))) false a b h = tt
entry_less-Stands (suc (suc (suc (suc col)))) true a b h = tt

IsOrdered-AllStand :
    (col : ℕ) (desc : Bool) (l : List DisplayEntry)
    → IsOrdered (entry_less col desc) l
    → AllStand col desc l
IsOrdered-AllStand col desc [] h = tt
IsOrdered-AllStand col desc (e ∷ es) h =
    (All-map (entry_less-Stands col desc e) es h.0, IsOrdered-AllStand col desc es h.1)

pub IsSortedBy-ArePlaced :
    (column : Option ℕ) (desc : Bool) (l : List DisplayEntry)
    → IsSortedBy column desc l
    → ArePlaced column desc l
IsSortedBy-ArePlaced none desc l h = tt
IsSortedBy-ArePlaced (some col) desc l h = IsOrdered-AllStand col desc l h
