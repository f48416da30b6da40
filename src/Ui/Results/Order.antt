-- ===== src/Ui/Results/Order.antt =====
-- The order of the list: a comparison that std::sort may be given, and what the sorted list is.
use mathlib.Core.List.{Perm}
use mathlib.Core.List.Perm
use winindex.Prelude.{
  ℕ, ◌≡◌, refl, sym, ◌∙◌, inl, inr, Bool, true, false, ◌||◌, Option, none, some, List, [], ◌∷◌, ltb,
  ◌==◌, if◌then◌else◌, WString, arith, All, Bool-cases,
}
use winindex.Search.Tokens.{wstr_lt}
use winindex.Ui.Results.{
  DisplayEntry, Sign, sign_of, compare_wstr, is_negative, is_positive, compare_by, entry_less,
  Sorter, apply_current_sort,
}

-- A strict weak order, as std::sort demands: asymmetric, and what separates two elements separates
-- one of them from each third.
pub record StrictWeak {ℓ} {A : Type ℓ} (less : A → A → Bool) : Type ℓ where
  pub asym : (a b : A) → less a b ≡ true → less b a ≡ false
  pub cotrans : (a b c : A) → less a c ≡ true → (less a b || less b c) ≡ true

-- No element is less than one before it.
abbrev pub IsOrdered {ℓ} : {A : Type ℓ} → (A → A → Bool) → List A → Type 0
IsOrdered less [] = Unit {0}
IsOrdered less (x ∷ xs) = All (λ y. less y x ≡ false) xs × IsOrdered less xs

pub wstr_lt-asym : (a b : WString) → wstr_lt a b ≡ true → wstr_lt b a ≡ false
unfolding wstr_lt
wstr_lt-asym [] [] h = refl
wstr_lt-asym [] (y ∷ b) h = refl
wstr_lt-asym (x ∷ a) [] h = ground arith
wstr_lt-asym (x ∷ a) (y ∷ b) h = ground (arith, wstr_lt-asym a b)

wstr_lt-cotrans : (a b c : WString) → wstr_lt a c ≡ true → (wstr_lt a b || wstr_lt b c) ≡ true
unfolding wstr_lt
wstr_lt-cotrans [] [] (z ∷ c) h = refl
wstr_lt-cotrans [] (y ∷ b) (z ∷ c) h = refl
wstr_lt-cotrans [] b [] h = ground arith
wstr_lt-cotrans (x ∷ a) b [] h = ground arith
wstr_lt-cotrans (x ∷ a) [] (z ∷ c) h = refl
wstr_lt-cotrans (x ∷ a) (y ∷ b) (z ∷ c) h = ground (arith, wstr_lt-cotrans a b c)

wstr_lt-StrictWeak : StrictWeak wstr_lt
wstr_lt-StrictWeak = record { asym = wstr_lt-asym; cotrans = wstr_lt-cotrans }

ltb-StrictWeak : StrictWeak ltb
ltb-StrictWeak = record { asym = λ a b h. ground arith; cotrans = λ a b c h. ground arith }

-- Both directions of a comparison by a key that is ordered strictly and weakly.
abbrev by_key {ℓ} :
    {K : Type ℓ} → (K → K → Bool) → (DisplayEntry → K) → DisplayEntry → DisplayEntry → Sign
by_key f key a b = sign_of (f (key a) (key b)) (f (key b) (key a))

abbrev directed : Bool → Sign → Bool
directed desc c = if desc then is_positive c else is_negative c

by_key-StrictWeak {ℓ} :
    {K : Type ℓ} (f : K → K → Bool) (key : DisplayEntry → K) (desc : Bool)
    → StrictWeak f
    → StrictWeak (λ (a : DisplayEntry) (b : DisplayEntry). directed desc (by_key f key a b))
by_key-StrictWeak f key true o = record {
  asym = λ a b h. ground (arith, o.asym (key a) (key b), o.asym (key b) (key a));
  cotrans = λ a b c h. ground (
    arith,
    o.cotrans (key c) (key b) (key a),
    o.asym (key a) (key b),
    o.asym (key b) (key a),
    o.asym (key b) (key c),
    o.asym (key c) (key b),
  );
}
by_key-StrictWeak f key false o = record {
  asym = λ a b h. ground (arith, o.asym (key a) (key b), o.asym (key b) (key a));
  cotrans = λ a b c h. ground (
    arith,
    o.cotrans (key a) (key b) (key c),
    o.asym (key a) (key b),
    o.asym (key b) (key a),
    o.asym (key b) (key c),
    o.asym (key c) (key b),
  );
}

StrictWeak-same :
    (f g : DisplayEntry → DisplayEntry → Bool)
    → ((a : DisplayEntry) (b : DisplayEntry) → g a b ≡ f a b)
    → StrictWeak f
    → StrictWeak g
StrictWeak-same f g e o = record {
  asym = λ a b h. e b a ∙ o.asym a b (sym (e a b) ∙ h);
  cotrans = λ a b c h. rw (e a b, e b c) (o.cotrans a b c (sym (e a c) ∙ h));
}

module _ (col : ℕ) (desc : Bool) where
  by_column :
      {K : Type 0} (f : K → K → Bool) (key : DisplayEntry → K)
      → StrictWeak f
      → ((a : DisplayEntry) (b : DisplayEntry) → compare_by col a b ≡ by_key f key a b)
      → StrictWeak (entry_less col desc)
  unfolding entry_less
  by_column f key o e =
      StrictWeak-same (λ (a : DisplayEntry) (b : DisplayEntry). directed desc (by_key f key a b))
        (entry_less col desc) (λ a b. rw (e a b) refl) (by_key-StrictWeak f key desc o)

  pub entry_less-StrictWeak : StrictWeak (entry_less col desc)
  unfolding compare_by compare_wstr
  entry_less-StrictWeak = elim (Bool-cases (col == 0)) [
    | inl name ↦ by_column wstr_lt (λ e. e.name) wstr_lt-StrictWeak (λ a b. rw name refl)
    | inr not_name ↦ elim (Bool-cases (col == 1)) [
      | inl path ↦
          by_column wstr_lt (λ e. e.path) wstr_lt-StrictWeak (λ a b. rw (not_name, path) refl)
      | inr not_path ↦ elim (Bool-cases (col == 2)) [
        | inl size ↦
            by_column ltb (λ e. e.size) ltb-StrictWeak (λ a b. rw (not_name, not_path, size) refl)
        | inr not_size ↦ elim (Bool-cases (col == 3)) [
          | inl time ↦
              by_column ltb (λ e. e.last_modified) ltb-StrictWeak
                (λ a b. rw (not_name, not_path, not_size, time) refl)
          | inr other ↦
              by_column ltb (λ e. 0) ltb-StrictWeak
                (λ a b. rw (not_name, not_path, not_size, other) refl)
        ]
      ]
    ]
  ]

-- What std::sort promises for a strict weak order.
abbrev pub Sorts : Sorter → Type 0
Sorts sort =
    (less : DisplayEntry → DisplayEntry → Bool)
    → StrictWeak less
    → (l : List DisplayEntry) → Perm (sort less l) l × IsOrdered less (sort less l)

-- The results are in the order of the column that is chosen, if one is.
abbrev pub IsSortedBy : Option ℕ → Bool → List DisplayEntry → Type 0
IsSortedBy none desc l = Unit {0}
IsSortedBy (some col) desc l = IsOrdered (entry_less col desc) l

pub apply_current_sort-IsSortedBy :
    (sort : Sorter) (column : Option ℕ) (desc : Bool) (l : List DisplayEntry)
    → Sorts sort
    → Perm (apply_current_sort sort column desc l) l
      × IsSortedBy column desc (apply_current_sort sort column desc l)
unfolding apply_current_sort
apply_current_sort-IsSortedBy sort none desc l sorts = (Perm.rfl, tt)
apply_current_sort-IsSortedBy sort (some col) desc [] sorts = (Perm.rfl, tt)
apply_current_sort-IsSortedBy sort (some col) desc (e ∷ es) sorts =
    sorts (entry_less col desc) (entry_less-StrictWeak col desc) (e ∷ es)
