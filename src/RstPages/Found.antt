-- ===== src/RstPages/Found.antt =====
-- find_sources of generate_rst.py: which paths a page lists, and in which order.
use pi_ghost.Base.{
  ◌≡◌, refl, inl, inr, ap, ◌∙◌, Bool, false, not, ◌&&◌, ◌||◌, List, [], ◌∷◌, ◌++◌, Text, text_eq,
  arith, Bool-cases,
}
use pi_ghost.RstPages.{
  Folder, nothing, file, folder, insert, sorted, ignored, is_source, files_of, join, sources_of,
  here, below, find_sources,
}
use pi_ghost.RstPages.Sorted.{IsSorted, sorted-IsSorted}

-- `q in xs`
abbrev pub listed : Text → List Text → Bool
listed q [] = false
listed q (x ∷ xs) = text_eq q x || listed q xs

-- The path `q` is that of a source in the folder `f` at `path`, below no folder that is ignored.
abbrev pub is_path_of_source : Text → Folder → Text → Bool
is_path_of_source path nothing q = false
is_path_of_source path (file name rest) q =
    (is_source name && text_eq q (join path name)) || is_path_of_source path rest q
is_path_of_source path (folder name inside rest) q =
    (not (ignored name) && is_path_of_source (join path name) inside q)
    || is_path_of_source path rest q

-- One of the names gives the path `q`.
abbrev named : Text → Text → List Text → Bool
named path q [] = false
named path q (name ∷ names) = (is_source name && text_eq q (join path name)) || named path q names

listed-append : (q : Text) (xs ys : List Text) → listed q (xs ++ ys) ≡ (listed q xs || listed q ys)
listed-append q [] ys = refl
listed-append q (x ∷ xs) ys = ground (arith, listed-append q xs ys)

listed-insert :
    (q x : Text) (xs : List Text) → listed q (insert x xs) ≡ (text_eq q x || listed q xs)
listed-insert q x [] = refl
listed-insert q x (y ∷ ys) = ground (arith, listed-insert q x ys)

listed-sorted : (q : Text) (xs : List Text) → listed q (sorted xs) ≡ listed q xs
listed-sorted q [] = refl
listed-sorted q (x ∷ xs) =
    listed-insert q x (sorted xs) ∙ ap (λ b. text_eq q x || b) (listed-sorted q xs)

named-insert :
    (path q x : Text) (xs : List Text)
    → named path q (insert x xs) ≡ ((is_source x && text_eq q (join path x)) || named path q xs)
named-insert path q x [] = refl
named-insert path q x (y ∷ ys) = ground (arith, named-insert path q x ys)

named-sorted : (path q : Text) (xs : List Text) → named path q (sorted xs) ≡ named path q xs
named-sorted path q [] = refl
named-sorted path q (x ∷ xs) =
    named-insert path q x (sorted xs)
    ∙ ap (λ b. (is_source x && text_eq q (join path x)) || b) (named-sorted path q xs)

listed-sources_of :
    (path q : Text) (names : List Text) → listed q (sources_of path names) ≡ named path q names
listed-sources_of path q [] = refl
listed-sources_of path q (n ∷ names) = ground (arith, listed-sources_of path q names)

listed-here : (path q : Text) (f : Folder) → listed q (here path f) ≡ named path q (files_of f)
listed-here path q f =
    listed-sources_of path q (sorted (files_of f)) ∙ named-sorted path q (files_of f)

swapped : (a b c : Bool) → (a || (b || c)) ≡ (b || (a || c))
swapped a b c = ground arith

found_below :
    (path q : Text) (f : Folder)
    → (named path q (files_of f) || listed q (below path f)) ≡ is_path_of_source path f q
found_below path q nothing = refl
found_below path q (file name rest) = ground (arith, found_below path q rest)
found_below path q (folder name inside rest) = elim (Bool-cases (ignored name)) [
  | inl e ↦ rw e (found_below path q rest)
  | inr e ↦ rw e (
      ap (λ b. named path q (files_of rest) || b)
        (listed-append q (here (join path name) inside ++ below (join path name) inside)
            (below path rest)
          ∙ ap (λ b. b || listed q (below path rest))
              (listed-append q (here (join path name) inside) (below (join path name) inside)
                ∙ ap (λ b. b || listed q (below (join path name) inside))
                    (listed-here (join path name) q inside)
                ∙ found_below (join path name) q inside))
      ∙ swapped (named path q (files_of rest)) _ _
      ∙ ap (λ b. is_path_of_source (join path name) inside q || b) (found_below path q rest))
]

-- A page lists a path exactly if it is that of a .c or .h file below the folder, with no folder
-- named build or build-tsan on the way; and its paths are in order.
pub find_sources-listed :
    (path : Text) (f : Folder)
    → ((q : Text) → listed q (find_sources path f) ≡ is_path_of_source path f q)
      × IsSorted (find_sources path f)
find_sources-listed path f = (
  λ q.
      listed-sorted q (here path f ++ below path f)
      ∙ listed-append q (here path f) (below path f)
      ∙ ap (λ b. b || listed q (below path f)) (listed-here path q f)
      ∙ found_below path q f,
  sorted-IsSorted (here path f ++ below path f),
)
