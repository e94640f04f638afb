-- ===== src/KdocParser/Doc.antt =====
-- The state of `KernelDoc`, and what begins and ends an entry. `log.info` and `log.debug` are not
-- part of the model.
use pi_ghost.Base.{
  Option, ℕ, Bool, true, false, none, some, List, [], ◌∷◌, ◌++◌, if◌then◌else◌, Text, codes, Dict,
  dict_get, dict_del,
}
use pi_ghost.CLex.Raised.{Result, ok, ◌>>=◌}
use pi_ghost.Regex.Class.{is_space}
use pi_ghost.Regex.{Match}
use pi_ghost.Regex.Search.{match_at}
use pi_ghost.KdocParser.Strings.{rstrip}
use pi_ghost.KdocParser.Patterns.{doc_start}
use pi_ghost.KdocParser.Entry.{KernelEntry, Message, new_entry, emit_msg, dump_section}

pub data State : Type 0 where
  normal name declaration body special_section proto docblock inline_name inline_text : State

-- What `output_declaration` keeps of an entry.
pub record KdocItem : Type 0 where
  pub name : Text
  pub dtype : Text
  pub start_line : ℕ
  pub other_stuff : Dict Text
  pub warnings : List Message
  pub sections : Dict Text
  pub sections_start_lines : Dict ℕ
  pub parameterlist : List Text
  pub parameterdescs : Dict Text
  pub parametertypes : Dict Text
  pub parameterdesc_start_lines : Dict ℕ

-- `entry` is fresh, where the source has `None`, before the first comment. `logged` is what
-- `config.warning` was called with.
pub record KernelDoc : Type 0 where
  pub state : State
  pub entry : KernelEntry
  pub entries : List KdocItem
  pub logged : List Message

unfoldable pub new_doc : KernelDoc
unfolding new_entry
new_doc = record { state = State.normal; entry = new_entry 0; entries = []; logged = [] }

abbrev pub goto : State → KernelDoc → KernelDoc
goto s d = record d { state = s }

abbrev pub with_entry : (KernelEntry → KernelEntry) → KernelDoc → KernelDoc
with_entry f d = record d { entry = f d.entry }

abbrev pub dump : KernelDoc → Result KernelDoc
dump d = do e ← dump_section true d.entry; ok (record d { entry = e })

abbrev pub emit : ℕ → Text → KernelDoc → KernelDoc
emit ln msg = with_entry (emit_msg ln msg)

abbrev pub bad_line : ℕ → Text → KernelDoc → KernelDoc
bad_line ln line = emit ln (codes "bad line: " ++ line)

-- No entry is one of the items of `entries`: they are of another class.
unfoldable pub emit_unused_warnings : KernelDoc → KernelDoc
emit_unused_warnings d = record d { logged = d.logged ++ d.entry.warnings }

unfoldable pub reset_state : ℕ → KernelDoc → KernelDoc
unfolding emit_unused_warnings new_entry
reset_state ln d = record (emit_unused_warnings d) { entry = new_entry ln; state = State.normal }

abbrev pub is_blank : Text → Bool
is_blank [] = true
is_blank _ = false

-- The section without its text, if that is blank.
abbrev drop_empty : Text → Dict Text → Dict Text
drop_empty k d = elim (dict_get k d) [
  | some w ↦ if is_blank (rstrip is_space w) then dict_del k d else d
  | none ↦ d
]

unfoldable pub item_of : Text → Text → Dict Text → KernelEntry → KdocItem
unfolding is_space
item_of dtype title args e = record {
  name = title;
  dtype = dtype;
  start_line = e.declaration_start_line;
  other_stuff = args;
  warnings = e.warnings;
  sections = drop_empty (codes "Return") (drop_empty (codes "Description") e.sections);
  sections_start_lines = e.sections_start_lines;
  parameterlist = e.parameterlist;
  parameterdescs = e.parameterdescs;
  parametertypes = e.parametertypes;
  parameterdesc_start_lines = e.parameterdesc_start_lines;
}

unfoldable pub output_declaration : Text → Text → Dict Text → KernelDoc → KernelDoc
unfolding item_of
output_declaration dtype title args d = record d {
  entries = d.entries ++ item_of dtype title args d.entry ∷ [];
}

abbrev pub begin_comment : Option Match → ℕ → KernelDoc → KernelDoc
begin_comment (some m) ln d = goto State.name (reset_state ln d)
begin_comment none ln d = d

unfoldable pub process_normal : ℕ → Text → KernelDoc → KernelDoc
unfolding reset_state match_at doc_start
process_normal ln line d = begin_comment (match_at doc_start line) ln d
