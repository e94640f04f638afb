-- ===== src/KdocParser/Enum.antt =====
-- `dump_enum`.
pub mod Described
pub mod Excess
use pi_ghost.Base.{
  ℕ, ◌==◌, Bool, true, false, not, ◌||◌, Option, none, some, List, [], ◌∷◌, ◌++◌, String, Text,
  codes, if◌then◌else◌, text_eq, Dict, dict_get, dict_set,
}
use pi_ghost.CLex.Raised.{Result, ok}
use pi_ghost.CLex.Tokenizer.{tokenize}
use pi_ghost.CLex.Render.{render}
use pi_ghost.Regex.{Rx, Match, start, one, seq, alt, star, group, lit, plus, row, bars}
use pi_ghost.Regex.Class.{is_space, is_word, is_none_of, not_newline}
use pi_ghost.Regex.Search.{sub, re_search, match_at, group_of}
use pi_ghost.KdocParser.Strings.{strip}
use pi_ghost.KdocParser.Entry.{KernelEntry, emit_msg}
use pi_ghost.KdocParser.Doc.{KernelDoc, emit, is_blank, output_declaration, with_entry}
use pi_ghost.KdocParser.Export.{is_member}

-- `s.split(c)`, of a text behind `w`.
unfoldable pub split_on : ℕ → Text → Text → List Text
split_on c w [] = w ∷ []
split_on c w (d ∷ s) =
    let apart = split_on c [] s in
    let on = split_on c (w ++ d ∷ []) s in if d == c then w ∷ apart else on

unfoldable pub trim_private_members : Text → Text
unfolding render tokenize
trim_private_members w = render (tokenize w)

abbrev pub undescribed : Text
undescribed = codes "-- undescribed --"

abbrev text : String → Rx
text w = lit (codes w)

abbrev spaces : Rx
spaces = star (one is_space)

abbrev some_spaces : Rx
some_spaces = plus (one is_space)

-- `#\s*((define|ifdef|if)\s+|endif)[^;]*;`
abbrev directive_rx : Rx
directive_rx = row (text "#") (
    spaces
    ∷ alt (seq (bars (text "define") (text "ifdef" ∷ text "if" ∷ [])) some_spaces) (text "endif")
    ∷ star (one (is_none_of (codes ";")))
    ∷ text ";"
    ∷ [])

-- `typedef\s+enum\s*\{(.*)\}\s*(\w*)\s*;` and `enum\s+(\w*)\s*\{(.*)\}`
abbrev typedef_enum : Rx
typedef_enum = row (text "typedef") (
    some_spaces
    ∷ text "enum"
    ∷ spaces
    ∷ text "{"
    ∷ group (codes "1") (star (one not_newline))
    ∷ text "}"
    ∷ spaces
    ∷ group (codes "2") (star (one is_word))
    ∷ spaces
    ∷ text ";"
    ∷ [])

abbrev enum_rx : Rx
enum_rx = row (text "enum") (
    some_spaces
    ∷ group (codes "1") (star (one is_word))
    ∷ spaces
    ∷ text "{"
    ∷ group (codes "2") (star (one not_newline))
    ∷ text "}"
    ∷ [])

abbrev second_form : Option Match → Option (Text × Text)
second_form (some m) = some (group_of (codes "1") m, group_of (codes "2") m)
second_form none = none

abbrev either_form : Option Match → Option (Text × Text) → Option (Text × Text)
either_form (some m) other = some (group_of (codes "2") m, group_of (codes "1") m)
either_form none other = other

-- The name and the members.
unfoldable pub enum_parts : Text → Option (Text × Text)
unfolding re_search match_at group_of is_space is_word
enum_parts proto = either_form (re_search typedef_enum proto) (second_form (match_at enum_rx proto))

-- `\([^;)]*\)` and `^\s*(\w+).*`
abbrev args_rx : Rx
args_rx = row (text "(") (star (one (is_none_of (codes ";)"))) ∷ text ")" ∷ [])

abbrev member_rx : Rx
member_rx =
    row start (spaces ∷ group (codes "1") (plus (one is_word)) ∷ star (one not_newline) ∷ [])

unfoldable pub member_name : Text → Text
unfolding sub group_of is_space is_word
member_name arg = sub member_rx (group_of (codes "1")) arg

-- The names of the members, without the blank ones.
unfoldable pub member_names : List Text → List Text
unfolding member_name is_space
member_names [] = []
member_names (arg ∷ args) =
    let rest = member_names args in
    if is_blank (strip is_space (member_name arg)) then rest else member_name arg ∷ rest

abbrev not_described : Text → Text → Text
not_described arg title =
    codes "Enum value '" ++ (arg ++ (codes "' not described in enum '" ++ (title ++ codes "'")))

unfoldable pub list_member : Option Text → ℕ → Text → Text → KernelEntry → KernelEntry
unfolding emit_msg
list_member (some w) ln title arg e = record e { parameterlist = e.parameterlist ++ arg ∷ [] }
list_member none ln title arg e = emit_msg ln (not_described arg title) (record e {
  parameterlist = e.parameterlist ++ arg ∷ [];
  parameterdescs = dict_set arg undescribed e.parameterdescs;
})

-- A member joins the list, and is undescribed unless the comment describes it.
unfoldable pub add_member : ℕ → Text → Text → KernelEntry → KernelEntry
unfolding list_member
add_member ln title arg e = list_member (dict_get arg e.parameterdescs) ln title arg e

unfoldable pub add_members : ℕ → Text → List Text → KernelEntry → KernelEntry
unfolding add_member
add_members ln title [] e = e
add_members ln title (arg ∷ args) e = add_members ln title args (add_member ln title arg e)

abbrev pub excess : Text → Text → Text
excess k title =
    codes "Excess enum value '@" ++ (k ++ (codes "' description in '" ++ (title ++ codes "'")))

-- The descriptions of what is no member.
unfoldable pub warn_excess : ℕ → Text → List Text → Dict Text → KernelEntry → KernelEntry
unfolding emit_msg
warn_excess ln title members [] e = e
warn_excess ln title members ((k, w) ∷ descs) e =
    let noted = warn_excess ln title members descs (emit_msg ln (excess k title) e) in
    let same = warn_excess ln title members descs e in if is_member k members then same else noted

abbrev wrong_name : Text → Text → Text → Text
wrong_name [] proto title = proto ++ codes ": wrong kernel-doc identifier on prototype"
wrong_name found proto title =
    codes "expecting prototype for enum "
    ++ (found ++ (codes ". Prototype was for enum " ++ (title ++ codes " instead")))

abbrev or_anonymous : Text → Text
or_anonymous [] = codes "(anonymous)"
or_anonymous w = w

-- An enum whose name is that of the comment.
unfoldable pub output_enum : ℕ → Text → Text → Text → KernelDoc → KernelDoc
unfolding sub split_on member_names add_members warn_excess output_declaration
output_enum ln title members source d =
    let names = member_names (split_on b',' [] (sub args_rx (λ m. []) members)) in
    let listed = add_members ln title names d.entry in
    let checked = warn_excess ln title names listed.parameterdescs listed in
    output_declaration (codes "enum") title
      ((codes "source", source) ∷ ((codes "purpose", checked.declaration_purpose) ∷ []))
      (record d { entry = checked })

abbrev enum_from : Option (Text × Text) → ℕ → Text → Text → KernelDoc → KernelDoc
enum_from none ln proto source d = emit ln (proto ++ codes ": error: Cannot parse enum!") d
enum_from (some (title, members)) ln proto source d =
    if text_eq d.entry.identifier title
    then output_enum ln (or_anonymous title) members source d
    else emit ln (wrong_name d.entry.identifier proto title) d

unfoldable pub dump_enum : ℕ → Text → Text → KernelDoc → Result KernelDoc
unfolding trim_private_members sub enum_parts output_enum emit_msg is_space
dump_enum ln proto source d =
    let trimmed = sub directive_rx (λ m. []) (trim_private_members proto) in
    ok (enum_from (enum_parts trimmed) ln trimmed source d)
