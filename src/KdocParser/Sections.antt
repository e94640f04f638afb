-- ===== src/KdocParser/Sections.antt =====
-- The lines of a comment that begin a section or end the comment, and the states that read text.
pub mod Begun
pub mod Docblock
use pi_ghost.Base.{
  ℕ, ◌+◌, ◌||◌, Option, none, some, [], ◌∷◌, ◌++◌, if◌then◌else◌, Text, text_eq, codes, starts_with,
}
use pi_ghost.CLex.Raised.{Result, ok, raised, ◌>>=◌}
use pi_ghost.Regex.{Match, Rx, one, star, lit, plus, row}
use pi_ghost.Regex.Class.{is_space, is_among, is_letter, is_digit}
use pi_ghost.Regex.Search.{re_search, match_at, group_of}
use pi_ghost.KdocParser.Strings.{lowered, lstrip, trim_whitespace}
use pi_ghost.KdocParser.Patterns.{doc_end, doc_sect, doc_content, doc_inline_end}
use pi_ghost.KdocParser.Entry.{add_text, emit_msg, dump_section, begin_section}
use pi_ghost.KdocParser.Doc.{
  State, KernelDoc, goto, with_entry, dump, emit, bad_line, output_declaration, reset_state,
}

-- The name of a new section, and the state that reads it.
unfoldable pub section_of : Text → Text × State
section_of w =
    let l = lowered w in
    let is_return =
      text_eq l (codes "@return")
      || text_eq l (codes "@returns")
      || text_eq l (codes "return")
      || text_eq l (codes "returns") in
    if text_eq l (codes "description")
    then (codes "Description", State.body)
    else if text_eq l (codes "context")
    then (codes "Context", State.special_section)
    else if is_return
    then (codes "Return", State.special_section)
    else if starts_with (codes "@") w
    then (w, State.special_section)
    else (w, State.body)

unfoldable pub new_section : Option Match → ℕ → KernelDoc → Result (Option KernelDoc)
unfolding group_of dump_section begin_section add_text section_of is_space
new_section none ln d = ok none
new_section (some m) ln d =
    let (newsection, st) = section_of (group_of (codes "1") m) in
    let newcontents = group_of (codes "2") m in
    do
      d' ← dump (goto st d)
      let e = begin_section ln newsection d'.entry
      ok (
          some (record d' {
            entry = add_text (lstrip is_space newcontents) (record e { leading_space = none });
          }))

-- `is_new_section`: `none` where it returns `False`, having changed nothing.
unfoldable pub is_new_section : ℕ → Text → KernelDoc → Result (Option KernelDoc)
unfolding re_search doc_sect new_section
is_new_section ln line d = new_section (re_search doc_sect line) ln d

-- `\s*\*\s*[a-zA-Z_0-9:.]+\*/`
abbrev pub suspicious_rx : Rx
suspicious_rx = row (star (one is_space)) (
    lit (codes "*")
    ∷ star (one is_space)
    ∷ plus (one (λ c. is_letter c || is_digit c || is_among (codes ":.") c))
    ∷ lit (codes "*/")
    ∷ [])

abbrev pub note_ending : Option Match → ℕ → Text → KernelDoc → KernelDoc
note_ending (some m) ln line d = emit ln (codes "suspicious ending line: " ++ line) d
note_ending none ln line d = d

unfoldable pub comment_end : Option Match → ℕ → Text → KernelDoc → Result (Option KernelDoc)
unfolding match_at dump_section emit_msg is_space is_letter is_digit is_among
comment_end none ln line d = ok none
comment_end (some m) ln line d = do
  d' ← dump d
  let noted = note_ending (match_at suspicious_rx line) ln line d'
  ok (
      some (record noted {
        entry = record noted.entry { prototype = []; new_start_line = ln + 1 };
        state = State.proto;
      }))

-- `is_comment_end`, in the same way.
unfoldable pub is_comment_end : ℕ → Text → KernelDoc → Result (Option KernelDoc)
unfolding re_search doc_end comment_end
is_comment_end ln line d = comment_end (re_search doc_end line) ln line d

-- `if m: return`, or else the rest.
abbrev pub returned_or : Result (Option KernelDoc) → Result KernelDoc → Result KernelDoc
returned_or (raised x) rest = raised x
returned_or (ok (some d)) rest = ok d
returned_or (ok none) rest = rest

-- `if self.is_new_section(ln, line) or self.is_comment_end(ln, line): return`, or else the rest.
unfoldable pub section_end_or : Result KernelDoc → ℕ → Text → KernelDoc → Result KernelDoc
unfolding is_new_section is_comment_end
section_end_or rest ln line d =
    returned_or (is_new_section ln line d) (returned_or (is_comment_end ln line d) rest)

-- What `doc_content` finds in a line.
unfoldable pub content_of : Text → Option Text
unfolding re_search doc_content group_of
content_of line = elim (re_search doc_content line) [
  | some m ↦ some (group_of (codes "1") m)
  | none ↦ none
]

abbrev pub decl_text : Option Text → ℕ → Text → KernelDoc → KernelDoc
decl_text (some []) ln line d = goto State.body d
decl_text (some cont) ln line d =
    with_entry
      (λ e. record e {
        declaration_purpose = trim_whitespace (e.declaration_purpose ++ (codes " " ++ cont));
      })
      d
decl_text none ln line d = bad_line ln line d

unfoldable pub process_decl : ℕ → Text → KernelDoc → Result KernelDoc
unfolding section_end_or content_of emit_msg trim_whitespace
process_decl ln line d = section_end_or (ok (decl_text (content_of line) ln line d)) ln line d

abbrev pub body_text : Option Text → ℕ → Text → KernelDoc → KernelDoc
body_text (some cont) ln line d = with_entry (add_text cont) d
body_text none ln line d = bad_line ln line d

unfoldable pub process_body : ℕ → Text → KernelDoc → Result KernelDoc
unfolding section_end_or content_of add_text emit_msg
process_body ln line d = section_end_or (ok (body_text (content_of line) ln line d)) ln line d

-- The end of a `DOC:` block.
unfoldable pub output_docblock : ℕ → Text → KernelDoc → Result KernelDoc
unfolding dump_section output_declaration reset_state
output_docblock ln source d = do
  d' ← dump d
  ok (
      reset_state ln
        (output_declaration (codes "doc") d'.entry.identifier ((codes "source", source) ∷ []) d'))

abbrev pub docblock_text : Option Text → KernelDoc → KernelDoc
docblock_text (some cont) d = with_entry (add_text cont) d
docblock_text none d = d

abbrev pub docblock_line : Option Match → ℕ → Text → Text → KernelDoc → Result KernelDoc
docblock_line (some m) ln line source d = output_docblock ln source d
docblock_line none ln line source d = ok (docblock_text (content_of line) d)

unfoldable pub process_docblock : ℕ → Text → Text → KernelDoc → Result KernelDoc
unfolding re_search doc_end output_docblock content_of add_text
process_docblock ln line source d = docblock_line (re_search doc_end line) ln line source d

-- A line of an inline comment behind its first.
abbrev pub inline_line : Option Match → Text → KernelDoc → Result KernelDoc
inline_line (some m) line d = do d' ← dump d; ok (goto State.proto d')
inline_line none line d = ok (docblock_text (content_of line) d)

unfoldable pub process_inline_text : Text → KernelDoc → Result KernelDoc
unfolding re_search doc_inline_end dump_section content_of add_text
process_inline_text line d = inline_line (re_search doc_inline_end line) line d
