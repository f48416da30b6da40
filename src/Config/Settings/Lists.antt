-- ===== src/Config/Settings/Lists.antt =====
-- Lists of paths read back from the text that was saved.
use winindex.Prelude.{
  ℕ, ◌≡◌, refl, ap, ◌∙◌, true, false, List, [], ◌∷◌, ◌++◌, arith, ◌==◌, All, WString, append_assoc,
  append-nil, is_empty,
}
use winindex.Config.Settings.{add_token, split_from, split_list, join_list}

abbrev pub HasNo : ℕ → WString → Type 0
HasNo sep = All (λ c. (c == sep) ≡ false)

-- An entry of a list that can be saved: not empty, and without the separator.
abbrev pub CanSave : ℕ → WString → Type 0
CanSave sep d = (is_empty d ≡ false) × HasNo sep d

split_from-token :
    (sep : ℕ) (token d rest : WString)
    → HasNo sep d
    → split_from sep token (d ++ (sep ∷ rest)) ≡ add_token (token ++ d) (split_from sep [] rest)
unfolding split_from
split_from-token sep token [] rest h =
    let e : (sep == sep) ≡ true = ground arith in rw (e, split_from) (rw append-nil)
split_from-token sep token (c ∷ d) rest h =
    rw (h.0, split_from) (split_from-token sep (token ++ (c ∷ [])) d rest h.1 ∙ rw append_assoc)

add_token-full : (d : WString) (ts : List WString) → is_empty d ≡ false → add_token d ts ≡ d ∷ ts
add_token-full [] ts h = cc
add_token-full (c ∷ d) ts h = refl

-- A list of paths that are not empty and have no separator in them reads back from its joined
-- text.
pub split_list-join_list :
    (sep : ℕ) (ds : List WString) → All (CanSave sep) ds → split_list sep (join_list sep ds) ≡ ds
unfolding split_list join_list
split_list-join_list sep [] h = unfold split_from in refl
split_list-join_list sep (d ∷ ds) h =
    split_from-token sep [] d (join_list sep ds) h.0.1
    ∙ add_token-full d (split_from sep [] (join_list sep ds)) h.0.0
    ∙ ap (λ t. d ∷ t) (split_list-join_list sep ds h.1)
