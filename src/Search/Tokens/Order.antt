-- ===== src/Search/Tokens/Order.antt =====
-- The order of strings, and what sorting keeps.
use winindex.Prelude.{
  ◌≡◌, refl, Bool, true, false, ◌&&◌, ◌||◌, List, [], ◌∷◌, arith, if◌then◌else◌, any, all, All,
  WString, wstr_eq, wstr_eq_iff, Bool-cases, inl, inr,
}
use winindex.Search.Tokens.{wstr_lt, insert_token, sort_tokens, binary_search}

-- Of two strings that are not equal exactly one is below the other.
pub wstr_lt_trichotomy :
    (s t : WString)
    → wstr_eq s t ≡ (if wstr_lt s t then false else if wstr_lt t s then false else true)
unfolding wstr_lt
wstr_lt_trichotomy [] [] = refl
wstr_lt_trichotomy [] (y ∷ ys) = refl
wstr_lt_trichotomy (x ∷ xs) [] = refl
wstr_lt_trichotomy (x ∷ xs) (y ∷ ys) = ground (arith, wstr_lt_trichotomy xs ys)

pub wstr_lt_asymm : (s t : WString) → wstr_lt s t ≡ true → wstr_lt t s ≡ false
unfolding wstr_lt
wstr_lt_asymm [] [] h = refl
wstr_lt_asymm [] (y ∷ ys) h = refl
wstr_lt_asymm (x ∷ xs) [] h = cc
wstr_lt_asymm (x ∷ xs) (y ∷ ys) h = ground (arith, wstr_lt_asymm xs ys)

pub wstr_lt_trans : (s t u : WString) → wstr_lt s t ≡ true → wstr_lt t u ≡ true → wstr_lt s u ≡ true
unfolding wstr_lt
wstr_lt_trans [] [] u h k = cc
wstr_lt_trans [] (y ∷ ys) [] h k = cc
wstr_lt_trans [] (y ∷ ys) (z ∷ zs) h k = refl
wstr_lt_trans (x ∷ xs) [] u h k = cc
wstr_lt_trans (x ∷ xs) (y ∷ ys) [] h k = cc
wstr_lt_trans (x ∷ xs) (y ∷ ys) (z ∷ zs) h k = ground (arith, wstr_lt_trans xs ys zs)

abbrev pub NoneBelow : WString → List WString → Type 0
NoneBelow t = All (λ x. wstr_lt x t ≡ false)

abbrev pub IsSorted : List WString → Type 0
IsSorted [] = Unit {0}
IsSorted (x ∷ xs) = NoneBelow x xs × IsSorted xs

-- What lies above something that is above `t` is not below `t`.
NoneBelow-lower :
    (t x : WString) (xs : List WString) → wstr_lt t x ≡ true → NoneBelow x xs → NoneBelow t xs
NoneBelow-lower t x [] h n = tt
NoneBelow-lower t x (y ∷ ys) h n =
    (ground (arith, wstr_lt_trans y t x), NoneBelow-lower t x ys h n.1)

NoneBelow-insert_token :
    (x t : WString) (xs : List WString)
    → wstr_lt t x ≡ false
    → NoneBelow x xs
    → NoneBelow x (insert_token t xs)
unfolding insert_token
NoneBelow-insert_token x t [] h n = (h, tt)
NoneBelow-insert_token x t (y ∷ ys) h n = ground (arith, NoneBelow-insert_token x t ys h n.1)

insert_token-IsSorted :
    (t : WString) (xs : List WString) → IsSorted xs → IsSorted (insert_token t xs)
unfolding insert_token
insert_token-IsSorted t [] s = (tt, tt)
insert_token-IsSorted t (x ∷ xs) s = elim (Bool-cases (wstr_lt t x)) [
  | inl below ↦ rw below ((wstr_lt_asymm t x below, NoneBelow-lower t x xs below s.0), s)
  | inr above ↦ rw above (NoneBelow-insert_token x t xs above s.0, insert_token-IsSorted t xs s.1)
]

pub sort_tokens-IsSorted : (ts : List WString) → IsSorted (sort_tokens ts)
unfolding sort_tokens
sort_tokens-IsSorted [] = tt
sort_tokens-IsSorted (t ∷ ts) = insert_token-IsSorted t (sort_tokens ts) (sort_tokens-IsSorted ts)

any-insert_token :
    (p : WString → Bool) (t : WString) (xs : List WString)
    → any p (insert_token t xs) ≡ (p t || any p xs)
unfolding insert_token
any-insert_token p t [] = refl
any-insert_token p t (x ∷ xs) = ground (arith, any-insert_token p t xs)

pub any-sort_tokens : (p : WString → Bool) (ts : List WString) → any p (sort_tokens ts) ≡ any p ts
unfolding sort_tokens
any-sort_tokens p [] = refl
any-sort_tokens p (t ∷ ts) = rw (any-insert_token p t (sort_tokens ts), any-sort_tokens p ts)

all-insert_token :
    (p : WString → Bool) (t : WString) (xs : List WString)
    → all p (insert_token t xs) ≡ (p t && all p xs)
unfolding insert_token
all-insert_token p t [] = refl
all-insert_token p t (x ∷ xs) = ground (arith, all-insert_token p t xs)

pub all-sort_tokens : (p : WString → Bool) (ts : List WString) → all p (sort_tokens ts) ≡ all p ts
unfolding sort_tokens
all-sort_tokens p [] = refl
all-sort_tokens p (t ∷ ts) = rw (all-insert_token p t (sort_tokens ts), all-sort_tokens p ts)

any-NoneBelow :
    (t : WString) (x : WString) (xs : List WString)
    → wstr_lt t x ≡ true
    → NoneBelow x xs
    → any (wstr_eq t) xs ≡ false
any-NoneBelow t x [] h n = refl
any-NoneBelow t x (y ∷ ys) h n =
    ground (arith, any-NoneBelow t x ys h n.1, wstr_eq_iff t y, wstr_lt_trichotomy t y)

-- On a sorted list binary search is membership.
pub binary_search-any :
    (xs : List WString) (t : WString) → IsSorted xs → binary_search xs t ≡ any (wstr_eq t) xs
unfolding binary_search
binary_search-any [] t s = refl
binary_search-any (x ∷ xs) t s =
    ground (arith, binary_search-any xs t s.1, wstr_lt_trichotomy t x, any-NoneBelow t x xs)
