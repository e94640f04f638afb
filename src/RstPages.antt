-- ===== src/RstPages.antt =====
-- docs/generate_rst.py: the pages of the Sphinx documentation with one line for each source. The
-- names in the file system are an argument: what os.walk finds below a folder.
pub mod Sorted
pub mod Found
use pi_ghost.Base.{
  ℕ, Bool, true, false, ◌&&◌, ◌||◌, not, List, [], ◌∷◌, ◌++◌, map, if◌then◌else◌, ltb, ◌==◌, Text,
  codes, text_eq, length,
}

pub data Folder : Type 0 where
  nothing : Folder
  file : (name : Text) → (rest : Folder) → Folder
  folder : (name : Text) → (inside rest : Folder) → Folder

-- The order of Python on str.
abbrev pub text_le : Text → Text → Bool
text_le [] ys = true
text_le (x ∷ xs) [] = false
text_le (x ∷ xs) (y ∷ ys) = ltb x y || (x == y && text_le xs ys)

abbrev pub insert : Text → List Text → List Text
insert x [] = x ∷ []
insert x (y ∷ ys) = let later = insert x ys in if text_le x y then x ∷ y ∷ ys else y ∷ later

-- `sorted(xs)`
abbrev pub sorted : List Text → List Text
sorted [] = []
sorted (x ∷ xs) = insert x (sorted xs)

abbrev pub ignored : Text → Bool
ignored name = text_eq name (codes "build") || text_eq name (codes "build-tsan")

-- `name.endswith(suffix)`
abbrev ends_with : Text → Text → Bool
ends_with suffix [] = text_eq suffix []
ends_with suffix (c ∷ name) = text_eq suffix (c ∷ name) || ends_with suffix name

abbrev pub is_source : Text → Bool
is_source name = ends_with (codes ".c") name || ends_with (codes ".h") name

-- `files` of os.walk
abbrev pub files_of : Folder → List Text
files_of nothing = []
files_of (file name rest) = name ∷ files_of rest
files_of (folder name inside rest) = files_of rest

-- A path relative to WISP_PATH, with "/" for os.sep.
abbrev pub join : Text → Text → Text
join path name = path ++ codes "/" ++ name

abbrev pub sources_of : Text → List Text → List Text
sources_of path [] = []
sources_of path (name ∷ names) =
    let more = sources_of path names in if is_source name then join path name ∷ more else more

abbrev pub here : Text → Folder → List Text
here path f = sources_of path (sorted (files_of f))

-- The rounds of the loop for the folders below `path`.
abbrev pub below : Text → Folder → List Text
below path nothing = []
below path (file name rest) = below path rest
below path (folder name inside rest) =
    let later = below path rest in
    let inner = below (join path name) inside in
    if ignored name then later else (here (join path name) inside ++ inner) ++ later

abbrev pub find_sources : Text → Folder → List Text
find_sources subdir f = sorted (here subdir f ++ below subdir f)

abbrev underline : Text → Text
underline [] = []
underline (_ ∷ title) = codes "=" ++ underline title

abbrev directives : List Text → Text
directives [] = []
directives (s ∷ sources) = codes ".. kernel-doc:: " ++ s ++ codes "\n" ++ directives sources

-- The text of the page.
abbrev pub write_page : Text → List Text → Text
write_page title sources =
    title ++ codes "\n" ++ underline title ++ codes "\n\n" ++ directives sources

-- The pages with their names in SPHINX_DIR, for the three folders of WISP_PATH.
abbrev pub main : Folder → Folder → Folder → List (Text × Text)
main protocol server client_sdk =
    (
      codes "wisp_protocol.rst",
      write_page (codes "Wisp Protocol") (find_sources (codes "protocol") protocol),
    )
    ∷ (
      codes "wisp_server.rst",
      write_page (codes "Wisp Server") (find_sources (codes "server") server),
    )
    ∷ (
      codes "wisp_client_sdk.rst",
      write_page (codes "Wisp Client SDK") (find_sources (codes "client_sdk") client_sdk),
    )
    ∷ []
