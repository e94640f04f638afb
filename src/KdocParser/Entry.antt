-- ===== src/KdocParser/Entry.antt =====
-- `KernelEntry`. A dict is in the order of insertion, and a message of `emit_msg` is kept as its
-- line and its text, without the name of the file.
pub mod Dumped
use pi_ghost.Base.{
  ℕ, ◌+◌, Bool, true, false, ◌&&◌, Option, none, some, List, [], ◌∷◌, ◌++◌, if◌then◌else◌, Text,
  text_eq, codes, Dict, dict_get, dict_set, ℤ, pos,
}
use pi_ghost.CLex.Raised.{Result, ok, raised, unset_section}
use pi_ghost.Regex.Search.{match_at, group_of}
use pi_ghost.KdocParser.Strings.{joined_lines}
use pi_ghost.KdocParser.Patterns.{type_param}

pub record Message : Type 0 where
  pub line : ℕ
  pub text : Text

-- `section` is `none` until `begin_section` sets it: to read it then is the exception `unset_section`. The
-- other attributes that `__init__` leaves out are empty or 0 here until they are set.
pub record KernelEntry : Type 0 where
  pub texts : List Text
  pub prototype : Text
  pub warnings : List Message
  pub parameterlist : List Text
  pub parameterdescs : Dict Text
  pub parametertypes : Dict Text
  pub parameterdesc_start_lines : Dict ℕ
  pub sections_start_lines : Dict ℕ
  pub sections : Dict Text
  pub anon_struct_union : Bool
  pub leading_space : Option ℕ
  pub brcount : ℤ
  pub declaration_start_line : ℕ
  pub section : Option Text
  pub new_start_line : ℕ
  pub identifier : Text
  pub decl_type : Text
  pub declaration_purpose : Text

-- `__init__`
unfoldable pub new_entry : ℕ → KernelEntry
new_entry ln = record {
  texts = [];
  prototype = [];
  warnings = [];
  parameterlist = [];
  parameterdescs = [];
  parametertypes = [];
  parameterdesc_start_lines = [];
  sections_start_lines = [];
  sections = [];
  anon_struct_union = false;
  leading_space = none;
  brcount = pos 0;
  declaration_start_line = ln + 1;
  section = none;
  new_start_line = 0;
  identifier = [];
  decl_type = [];
  declaration_purpose = [];
}

abbrev pub section_default : Text
section_default = codes "Description"

unfoldable pub add_text : Text → KernelEntry → KernelEntry
add_text w e = record e { texts = e.texts ++ w ∷ [] }

unfoldable pub contents : KernelEntry → Text
contents e = joined_lines e.texts ++ codes "\n"

-- `emit_msg` with `warning=True`.
unfoldable pub emit_msg : ℕ → Text → KernelEntry → KernelEntry
emit_msg ln msg e = record e { warnings = e.warnings ++ record { line = ln; text = msg } ∷ [] }

abbrev duplicate : Text → Text
duplicate name = codes "duplicate section name '" ++ name ++ codes "'"

-- A parameter's description.
unfoldable pub store_param : Text → KernelEntry → KernelEntry
unfolding contents
store_param name e = record e {
  parameterdescs = dict_set name (contents e) e.parameterdescs;
  parameterdesc_start_lines = dict_set name e.new_start_line e.parameterdesc_start_lines;
  new_start_line = 0;
}

-- The text of a section, on its own or as a new paragraph behind what it has.
unfoldable pub store_section : Text → KernelEntry → KernelEntry
unfolding contents emit_msg
store_section name e =
    let e' =
      if text_eq name section_default then e else emit_msg e.new_start_line (duplicate name) e in
    let only = record e {
      sections = dict_set name (contents e) e.sections;
      sections_start_lines = dict_set name e.new_start_line e.sections_start_lines;
      new_start_line = 0;
    } in
    elim (dict_get name e.sections) [
      | some (c ∷ old) ↦ record e' {
        sections = dict_set name ((c ∷ old) ++ (codes "\n" ++ contents e)) e.sections;
      }
      | _ ↦ only
    ]

unfoldable pub store : Text → KernelEntry → KernelEntry
unfolding store_param store_section match_at group_of type_param
store name e = elim (match_at type_param name) [
  | some m ↦ store_param (group_of (codes "1") m) e
  | none ↦ store_section name e
]

unfoldable pub restart : Bool → KernelEntry → KernelEntry
restart start_new e =
    if start_new then record e { section = some section_default; texts = [] } else e

abbrev pub no_texts : List Text → Bool
no_texts [] = true
no_texts _ = false

unfoldable pub dump_titled : Option Text → Bool → KernelEntry → Result KernelEntry
unfolding store restart
dump_titled none start_new e = raised unset_section
dump_titled (some title) start_new e =
    if text_eq title section_default && no_texts e.texts
    then ok e
    else ok (restart start_new (store title e))

unfoldable pub dump_section : Bool → KernelEntry → Result KernelEntry
unfolding dump_titled
dump_section start_new e = dump_titled e.section start_new e

-- `begin_section` with `dump=False`.
unfoldable pub begin_section : ℕ → Text → KernelEntry → KernelEntry
begin_section ln title e = record e { section = some title; new_start_line = ln }
