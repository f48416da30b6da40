-- ===== src/Ui/Rows/Paths.antt =====
-- The list of paths as the shell reads it, and the columns that make up a path.
use winindex.Prelude.{
  append-nil, ℕ, ◌≡◌, ◌≢◌, refl, ap, ◌∙◌, false, Option, none, some, List, [], ◌∷◌, ◌++◌, ◌==◌,
  if◌then◌else◌, map, All, WString, append_assoc,
}
use winindex.Ui.Results.{DisplayEntry}
use winindex.Ui.Rows.{selected, terminated, doubly_terminated, path_list}

-- Strings that end with a NUL each, up to an empty one; `acc` is what has been read of the next.
abbrev pub read_from : WString → WString → List WString
read_from acc [] = []
read_from [] (c ∷ text) = if c == 0 then [] else read_from (c ∷ []) text
read_from (a ∷ acc) (c ∷ text) =
    if c == 0 then (a ∷ acc) ∷ read_from [] text else read_from ((a ∷ acc) ++ c ∷ []) text

abbrev pub read_paths : Option WString → List WString
read_paths none = []
read_paths (some text) = read_from [] text

-- A path that is not empty and has no NUL in it.
abbrev pub IsText : DisplayEntry → Type 0
IsText e = (e.path ≢ []) × All (λ c. (c == 0) ≡ false) e.path

read_from-char :
    (acc : WString) (c : ℕ) (text : WString)
    → (c == 0) ≡ false
    → read_from acc (c ∷ text) ≡ read_from (acc ++ c ∷ []) text
read_from-char [] c text h = rw h
read_from-char (a ∷ acc) c text h = rw h

read_from-path :
    (path acc rest : WString)
    → All (λ c. (c == 0) ≡ false) path
    → read_from acc (path ++ rest) ≡ read_from (acc ++ path) rest
read_from-path [] acc rest h = rw append-nil
read_from-path (c ∷ path) acc rest h =
    read_from-char acc c (path ++ rest) h.0
    ∙ read_from-path path (acc ++ c ∷ []) rest h.1
    ∙ ap (λ (t : WString). read_from t rest) (append_assoc acc (c ∷ []) path)

read_from-end :
    (path rest : WString) → path ≢ [] → read_from path (0 ∷ rest) ≡ path ∷ read_from [] rest
read_from-end [] rest h = absurd (h refl)
read_from-end (c ∷ path) rest h = refl

read_from-terminated :
    (es : List DisplayEntry)
    → All IsText es
    → read_from [] (terminated es ++ 0 ∷ []) ≡ map (λ (e : DisplayEntry). e.path) es
read_from-terminated [] h = refl
read_from-terminated (e ∷ es) h =
    ap (λ (t : WString). read_from [] t) (append_assoc e.path (0 ∷ terminated es) (0 ∷ []))
    ∙ read_from-path e.path [] (0 ∷ (terminated es ++ 0 ∷ [])) h.0.1
    ∙ read_from-end e.path (terminated es ++ 0 ∷ []) h.0.0
    ∙ ap (λ (t : List WString). e.path ∷ t) (read_from-terminated es h.1)

append-ne : (p rest : WString) → p ≢ [] → p ++ rest ≢ []
append-ne [] rest h = absurd (h refl)
append-ne (c ∷ p) rest h = λ q. cc

of_text : (t : WString) → t ≢ [] → read_paths (doubly_terminated t) ≡ read_from [] (t ++ 0 ∷ [])
of_text [] h = absurd (h refl)
of_text (c ∷ t) h = refl

-- If the selected results have paths that are not empty and have no NUL, then reading the list of
-- paths that the handlers of cut, drag and delete build up to its double NUL gives back exactly
-- their paths, in order; if there is no selected result there is no list.
pub path_list-read_paths :
    (results : List DisplayEntry) (sel : List ℕ)
    → All IsText (selected results sel)
    → (read_paths (path_list results sel)
        ≡ map (λ (e : DisplayEntry). e.path) (selected results sel))
      × (selected results sel ≡ [] → path_list results sel ≡ none)
unfolding path_list
path_list-read_paths results sel h =
    (of_list (selected results sel) h, λ empty. ap (λ es. doubly_terminated (terminated es)) empty)
  where
    of_list :
        (es : List DisplayEntry)
        → All IsText es
        → read_paths (doubly_terminated (terminated es)) ≡ map (λ (e : DisplayEntry). e.path) es
    of_list [] h = refl
    of_list (e ∷ es) h =
        of_text (terminated (e ∷ es)) (append-ne e.path (0 ∷ terminated es) h.0.0)
        ∙ read_from-terminated (e ∷ es) h
