-- ===== src/Search/Tokens.antt =====
-- src/core/search/TokenMatcher.h, TokenMatcher.cpp. A view is the string that it shows. `std::sort`
-- and `std::binary_search` are written out: insertion into a sorted list, and the lower bound.
pub mod Order
pub mod Laws
use winindex.Prelude.{
  ℕ, Bool, true, false, not, ◌&&◌, ◌||◌, List, [], ◌∷◌, ◌++◌, ltb, ◌==◌, if◌then◌else◌, any, all,
  is_empty, WString,
}

abbrev pub is_token_sep : ℕ → Bool
is_token_sep c = c == b' ' || (c == b'_' || (c == b'-' || c == b'.'))

unfoldable pub query_has_separators : WString → Bool
query_has_separators query = any is_token_sep query

-- `if (i > start) tokens.emplace_back(...)`
abbrev pub emit : WString → List WString → List WString
emit [] tokens = tokens
emit (c ∷ cs) tokens = (c ∷ cs) ∷ tokens

-- The loop, with the characters from `start` to `i` and those from `i` on.
unfoldable pub tokens_from : WString → WString → List WString
tokens_from current [] = emit current []
tokens_from current (c ∷ cs) = elim (is_token_sep c) [
  | true ↦ emit current (tokens_from [] cs)
  | false ↦ tokens_from (current ++ (c ∷ [])) cs
]

unfoldable pub tokenize_view : WString → List WString
unfolding tokens_from
tokenize_view s = tokens_from [] s

-- operator< of two strings.
unfoldable pub wstr_lt : WString → WString → Bool
wstr_lt [] [] = false
wstr_lt [] (y ∷ ys) = true
wstr_lt (x ∷ xs) [] = false
wstr_lt (x ∷ xs) (y ∷ ys) = ltb x y || ((x == y) && wstr_lt xs ys)

unfoldable pub insert_token : WString → List WString → List WString
insert_token t [] = t ∷ []
insert_token t (x ∷ xs) =
    let rest = x ∷ insert_token t xs in if wstr_lt t x then t ∷ (x ∷ xs) else rest

unfoldable pub sort_tokens : List WString → List WString
sort_tokens [] = []
sort_tokens (t ∷ ts) = insert_token t (sort_tokens ts)

-- `std::binary_search`: the first element that is not below `t` is not above it.
unfoldable pub binary_search : List WString → WString → Bool
binary_search [] t = false
binary_search (x ∷ xs) t =
    let rest = binary_search xs t in if wstr_lt x t then rest else not (wstr_lt t x)

unfoldable pub all_query_tokens_present : List WString → List WString → Bool
all_query_tokens_present [] file_tokens = false
all_query_tokens_present (q ∷ qs) file_tokens = all (binary_search file_tokens) (q ∷ qs)
