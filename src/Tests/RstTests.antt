-- ===== src/Tests/RstTests.antt =====
-- The pages of docs/generate_rst.py on a small tree.
use pi_ghost.Base.{◌≡◌, refl, [], ◌∷◌, Text, codes}
use pi_ghost.RstPages.{Folder, nothing, file, folder, find_sources, write_page}
use pi_ghost.RstPages.Sorted.{IsSorted}
use pi_ghost.RstPages.Found.{listed, is_path_of_source, find_sources-listed}

abbrev tree : Folder
tree = folder (codes "build") (file (codes "x.c") nothing) (
    folder (codes "src") (file (codes "b.c") (file (codes "a.h") nothing))
      (file (codes "README.md") (file (codes "main.c") nothing)))

tree_sources :
    find_sources (codes "server") tree
    ≡ codes "server/main.c" ∷ codes "server/src/a.h" ∷ codes "server/src/b.c" ∷ []
tree_sources = refl

tree_page : write_page (codes "Hi") (codes "a.c" ∷ []) ≡ codes "Hi\n==\n\n.. kernel-doc:: a.c\n"
tree_page = refl

find_sources-listed_example :
    ((q : Text)
      → listed q (find_sources (codes "server") tree) ≡ is_path_of_source (codes "server") tree q)
    × IsSorted (find_sources (codes "server") tree)
find_sources-listed_example = find_sources-listed (codes "server") tree
