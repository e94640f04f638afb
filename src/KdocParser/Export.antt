-- ===== src/KdocParser/Export.antt =====
-- `process_export`.
pub mod Trimmed
use pi_ghost.Base.{
  Bool, true, false, ◌||◌, Option, none, some, List, [], ◌∷◌, ◌++◌, Text, codes, text_eq,
  if◌then◌else◌,
}
use pi_ghost.Regex.{Match}
use pi_ghost.Regex.Search.{re_search, group_of}
use pi_ghost.KdocParser.Patterns.{export_symbol, export_symbol_ns}

abbrev pub is_member : Text → List Text → Bool
is_member w [] = false
is_member w (v ∷ vs) = text_eq w v || is_member w vs

-- `s.add(w)` on a set, as a list in the order of insertion.
abbrev pub set_add : Text → List Text → List Text
set_add w vs = if is_member w vs then vs else vs ++ w ∷ []

-- `s[:-len(w)]` if `s.endswith(w)`.
unfoldable pub trim_suffix : Text → Text → Text
trim_suffix w [] = []
trim_suffix w (c ∷ s) = let rest = trim_suffix w s in if text_eq (c ∷ s) w then [] else c ∷ rest

abbrev pub add_symbol : List Text → Match → List Text
add_symbol table m = set_add (trim_suffix (codes "_noprof") (group_of (codes "2") m)) table

abbrev pub exported_by : List Text → Option Match → Option Match → Option (List Text)
exported_by table (some m) other = some (add_symbol table m)
exported_by table none (some m) = some (add_symbol table m)
exported_by table none none = none

-- The table with the symbol that a line exports; `none` where the source returns `False`.
unfoldable pub process_export : List Text → Text → Option (List Text)
unfolding re_search export_symbol export_symbol_ns group_of trim_suffix
process_export table line =
    exported_by table (re_search export_symbol line) (re_search export_symbol_ns line)
