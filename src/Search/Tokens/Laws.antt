-- ===== src/Search/Tokens/Laws.antt =====
-- Tokens are the maximal runs between separators, and token matching is inclusion of sets.
use winindex.Prelude.{
  ℕ, ◌≡◌, refl, ap, ◌∙◌, true, false, not, ◌&&◌, List, [], ◌∷◌, ◌++◌, arith, any, all, All,
  is_empty, WString, wstr_eq, append_assoc, append-nil, Bool-cases, inl, inr,
}
use winindex.Search.Tokens.{
  is_token_sep, emit, tokens_from, tokenize_view, sort_tokens, insert_token, binary_search,
  all_query_tokens_present,
}
use winindex.Search.Tokens.Order.{
  sort_tokens-IsSorted, any-sort_tokens, all-sort_tokens, binary_search-any,
}

abbrev pub HasNoSep : WString → Type 0
HasNoSep = All (λ c. is_token_sep c ≡ false)

emit-append :
    (current : WString) (ts us : List WString) → emit current (ts ++ us) ≡ emit current ts ++ us
emit-append [] ts us = refl
emit-append (c ∷ cs) ts us = refl

tokens_from-plain :
    (current a : WString) → HasNoSep a → tokens_from current a ≡ emit (current ++ a) []
unfolding tokens_from
tokens_from-plain current [] h = rw append-nil
tokens_from-plain current (c ∷ a) h =
    rw (h.0, tokens_from) (tokens_from-plain (current ++ (c ∷ [])) a h.1 ∙ rw append_assoc)

tokens_from-sep :
    (current a b : WString) (sep : ℕ)
    → is_token_sep sep ≡ true
    → tokens_from current (a ++ (sep ∷ b)) ≡ tokens_from current a ++ tokens_from [] b
unfolding tokens_from
tokens_from-sep current [] b sep h = rw (h, tokens_from) (emit-append current [] (tokens_from [] b))
tokens_from-sep current (c ∷ a) b sep h = elim (Bool-cases (is_token_sep c)) [
  | inl cut ↦
      rw (cut, tokens_from)
        (rw (tokens_from-sep [] a b sep h)
          (emit-append current (tokens_from [] a) (tokens_from [] b)))
  | inr plain ↦ rw (plain, tokens_from) (tokens_from-sep (current ++ (c ∷ [])) a b sep h)
]

-- A run without separators is one token, or none if it is empty, and `TokenizeView` of such a
-- run, a separator and any rest is the token of the run followed by the tokens of the rest.
pub tokenize_view_splits :
    (a b : WString) (sep : ℕ)
    → HasNoSep a
    → is_token_sep sep ≡ true
    → (tokenize_view a ≡ emit a [])
      × (tokenize_view (a ++ (sep ∷ b)) ≡ emit a [] ++ tokenize_view b)
unfolding tokenize_view
tokenize_view_splits a b sep plain cut = (
  tokens_from-plain [] a plain,
  tokens_from-sep [] a b sep cut ∙ ap (λ t. t ++ tokens_from [] b) (tokens_from-plain [] a plain),
)

present-all :
    (qs fs : List WString)
    → all_query_tokens_present qs fs ≡ (not (is_empty qs) && all (binary_search fs) qs)
unfolding all_query_tokens_present
present-all [] fs = refl
present-all (q ∷ qs) fs = refl

is_empty-sort_tokens : (ts : List WString) → is_empty (sort_tokens ts) ≡ is_empty ts
unfolding sort_tokens insert_token
is_empty-sort_tokens [] = refl
is_empty-sort_tokens (t ∷ ts) = not_empty t (sort_tokens ts)
  where
    not_empty : (u : WString) (us : List WString) → is_empty (insert_token u us) ≡ false
    not_empty u [] = refl
    not_empty u (x ∷ us) = ground arith

all-binary_search :
    (fs qs : List WString)
    → all (binary_search (sort_tokens fs)) qs ≡ all (λ t. any (wstr_eq t) fs) qs
all-binary_search fs [] = refl
all-binary_search fs (q ∷ qs) = rw (
  binary_search-any (sort_tokens fs) q (sort_tokens-IsSorted fs),
  any-sort_tokens (wstr_eq q) fs,
  all-binary_search fs qs,
)

-- On the sorted token lists that the search passes, `AllQueryTokensPresent` holds exactly when
-- the query has a token and each of its tokens equals one of the file name's, in whatever order.
pub all_query_tokens_present-sorted :
    (qs fs : List WString)
    → all_query_tokens_present (sort_tokens qs) (sort_tokens fs)
      ≡ (not (is_empty qs) && all (λ t. any (wstr_eq t) fs) qs)
all_query_tokens_present-sorted qs fs = rw (
  present-all (sort_tokens qs) (sort_tokens fs),
  is_empty-sort_tokens qs,
  all-sort_tokens (binary_search (sort_tokens fs)) qs,
  all-binary_search fs qs,
)
