-- ===== src/KdocParser/Prototype.antt =====
-- The lines behind a comment, up to the end of what it documents. How a whole declaration is parsed
-- is the argument `Dumpers`.
pub mod Chunks
pub mod Unknown
use pi_ghost.Base.{
  ℕ, suc, ◌+◌, ◌==◌, Bool, true, false, not, ◌||◌, ◌&&◌, Option, none, some, List, [], ◌∷◌, ◌++◌,
  String, Text, codes, if◌then◌else◌, text_eq, starts_with, ℤ, sucℤ, predℤ, is_nonpos,
}
use pi_ghost.CLex.Raised.{Result, ok, raised, ◌>>=◌, attribute_error}
use pi_ghost.Regex.{Rx, Match, start, end, one, seq, alt, star, lazy, group, lit, plus, row, bars}
use pi_ghost.Regex.Class.{is_space, is_among, is_none_of, not_newline}
use pi_ghost.Regex.Search.{sub, re_search, re_split, match_at, group_of}
use pi_ghost.KdocParser.Strings.{contains, lstrip, strip}
use pi_ghost.KdocParser.Patterns.{
  doc_inline_sect, doc_inline_end, doc_inline_start, doc_inline_oneline,
}
use pi_ghost.KdocParser.Entry.{KernelEntry, begin_section, add_text, dump_section, emit_msg}
use pi_ghost.KdocParser.Doc.{State, KernelDoc, emit, with_entry, is_blank, goto, dump, reset_state}
use pi_ghost.KdocParser.Sections.{content_of}
use pi_ghost.KdocParser.Enum.{dump_enum}
use pi_ghost.KdocParser.Munge.{syscall_munge, tracepoint_munge}

-- What parses a declaration other than that of an enum, at a line, a prototype and a source.
abbrev pub Dumper : Type 0
Dumper = ℕ → Text → Text → KernelDoc → Result KernelDoc

pub record Dumpers : Type 0 where
  pub dump_typedef : Dumper
  pub dump_struct : Dumper
  pub dump_var : Dumper
  pub dump_function : Dumper

-- `dump_declaration`; the last branch calls `self.emit_message`, which does not exist.
unfoldable pub dump_declaration : Dumpers → Dumper
unfolding dump_enum
dump_declaration ds ln proto source d =
    let type = d.entry.decl_type in
    if text_eq type (codes "enum")
    then dump_enum ln proto source d
    else if text_eq type (codes "typedef")
    then ds.dump_typedef ln proto source d
    else if text_eq type (codes "union") || text_eq type (codes "struct")
    then ds.dump_struct ln proto source d
    else if text_eq type (codes "var")
    then ds.dump_var ln proto source d
    else raised attribute_error

abbrev text : String → Rx
text w = lit (codes w)

-- `//.*$`: the `re.S` of the calls is the argument `cache` of `KernRe`, so it is no flag.
abbrev pub line_comment : Rx
line_comment = row (text "//") (star (one not_newline) ∷ end ∷ [])

-- `(.*?)([{};])`
abbrev pub chunk_rx : Rx
chunk_rx =
    seq (group (codes "1") (lazy (one not_newline)))
      (group (codes "2") (one (is_among (codes "{};"))))

-- The loop over the pieces of a line: the prototype and the count of braces behind it, and whether
-- the declaration is over.
unfoldable pub read_chunks : List Text → Text → ℤ → Text × ℤ × Bool
read_chunks [] proto brcount = (proto, brcount, false)
read_chunks ([] ∷ ws) proto brcount = read_chunks ws proto brcount
read_chunks (w ∷ ws) proto brcount =
    let deeper = read_chunks ws (proto ++ w) (sucℤ brcount) in
    let higher = read_chunks ws (proto ++ w) (predℤ brcount) in
    let level = read_chunks ws (proto ++ w) brcount in
    if text_eq w (codes "{")
    then deeper
    else if text_eq w (codes "}")
    then higher
    else if text_eq w (codes ";") && is_nonpos brcount
    then (proto ++ w, brcount, true)
    else level

-- A preprocessor directive ends at the end of its line.
abbrev pub directive_end : Text → Text
directive_end w = if starts_with (codes "#") w then w ++ codes ";" else w

-- `\s*#\s*define`
abbrev pub define_rx : Rx
define_rx = row (star (one is_space)) (text "#" ∷ star (one is_space) ∷ text "define" ∷ [])

abbrev pub is_define : Text → Bool
is_define line = elim (match_at define_rx line) [ some m ↦ true | none ↦ false ]

-- `([^\{]*)`
abbrev before_brace : Text → Text
before_brace [] = []
before_brace (c ∷ s) = let rest = before_brace s in if c == b'{' then [] else c ∷ rest

-- The prototype with a line more.
unfoldable pub more_prototype : Text → Text → Text
unfolding match_at is_space
more_prototype line old =
    if is_define line
    then line
    else if starts_with (codes "#") line
    then old
    else old ++ (before_brace line ++ codes " ")

-- `/\*.*\*/` and `^(\S+\s+)\(\s*\*(\S+)\)`
abbrev block_comment : Rx
block_comment = row (text "/*") (star (one not_newline) ∷ text "*/" ∷ [])

abbrev no_spaces : Rx
no_spaces = plus (one (λ c. not (is_space c)))

abbrev function_pointer : Rx
function_pointer = row start (
    group (codes "1") (seq no_spaces (plus (one is_space)))
    ∷ text "("
    ∷ star (one is_space)
    ∷ text "*"
    ∷ group (codes "2") no_spaces
    ∷ text ")"
    ∷ [])

unfoldable pub clean_prototype : Text → Text
unfolding sub group_of is_space
clean_prototype w =
    sub function_pointer (λ m. group_of (codes "1") m ++ group_of (codes "2") m)
      (strip is_space (sub block_comment (λ m. []) w))

abbrev tracepoint_rx : Rx
tracepoint_rx = bars (text "TRACE_EVENT") (text "DEFINE_EVENT" ∷ text "DEFINE_SINGLE_EVENT" ∷ [])

abbrev traced : Option Match → ℕ → Text → KernelDoc → KernelDoc × Text
traced (some m) ln w d = tracepoint_munge ln w d
traced none ln w d = (d, w)

-- The special declaration syntaxes.
unfoldable pub munge : ℕ → Text → KernelDoc → KernelDoc × Text
unfolding syscall_munge tracepoint_munge re_search
munge ln w d =
    if contains (codes "SYSCALL_DEFINE") w
    then (d, syscall_munge w)
    else traced (re_search tracepoint_rx w) ln w d

module _ (dumpers : Dumpers) where
  -- Behind the pieces; the end of the line is a space.
  abbrev pub type_chunks : ℕ → Text → KernelDoc → Text × ℤ × Bool → Result KernelDoc
  type_chunks ln source d (proto, brcount, true) = do
    d' ←
        dump_declaration dumpers ln proto source
          (with_entry (λ e. record e { prototype = proto; brcount = brcount }) d)
    ok (reset_state ln d')
  type_chunks ln source d (proto, brcount, false) =
      ok (with_entry (λ e. record e { prototype = proto ++ codes " "; brcount = brcount }) d)

  abbrev pub type_line : ℕ → Text → Text → KernelDoc → Result KernelDoc
  type_line ln [] source d = ok d
  type_line ln w source d =
      type_chunks ln source d
        (read_chunks (re_split chunk_rx (directive_end w)) d.entry.prototype d.entry.brcount)

  unfoldable pub process_proto_type : ℕ → Text → Text → KernelDoc → Result KernelDoc
  unfolding sub read_chunks re_split reset_state dump_declaration is_space is_among
  process_proto_type ln line source d =
      type_line ln (strip is_space (sub line_comment (λ m. []) line)) source d

  abbrev pub function_end : ℕ → Text → KernelDoc × Text → Result KernelDoc
  function_end ln source (d, w) = do
    d' ← dumpers.dump_function ln w source (with_entry (λ e. record e { prototype = w }) d)
    ok (reset_state ln d')

  abbrev pub function_line : ℕ → Text → Text → KernelDoc → Result KernelDoc
  function_line ln line source d =
      let proto = more_prototype line d.entry.prototype in
      let clean = clean_prototype proto in
      if contains (codes "{") line || contains (codes ";") line || is_define line
      then function_end ln source
          (munge ln clean (with_entry (λ e. record e { prototype = clean }) d))
      else ok (with_entry (λ e. record e { prototype = proto }) d)

  unfoldable pub process_proto_function : ℕ → Text → Text → KernelDoc → Result KernelDoc
  unfolding sub more_prototype clean_prototype munge match_at reset_state is_space
  process_proto_function ln line source d =
      function_line ln (sub line_comment (λ m. []) line) source d

  abbrev pub declaration_line : ℕ → Text → Text → KernelDoc → Result KernelDoc
  declaration_line ln line source d =
      if text_eq d.entry.decl_type (codes "function")
      then process_proto_function ln line source d
      else process_proto_type ln line source d

  abbrev pub begin_inline : Option Match → ℕ → Text → Text → KernelDoc → Result KernelDoc
  begin_inline (some m) ln line source d = ok (goto State.inline_name d)
  begin_inline none ln line source d = declaration_line ln line source d

  abbrev pub proto_line : Option Match → ℕ → Text → Text → KernelDoc → Result KernelDoc
  proto_line (some m) ln line source d = dump (
      with_entry
        (λ e. add_text (group_of (codes "2") m) (begin_section ln (group_of (codes "1") m) e)) d)
  proto_line none ln line source d = begin_inline (re_search doc_inline_start line) ln line source d

  unfoldable pub process_proto : ℕ → Text → Text → KernelDoc → Result KernelDoc
  unfolding re_search doc_inline_oneline doc_inline_start begin_section add_text dump_section
      group_of process_proto_function process_proto_type
  process_proto ln line source d = proto_line (re_search doc_inline_oneline line) ln line source d

  abbrev pub incorrect : Option Text → ℕ → Text → Text → KernelDoc → Result KernelDoc
  incorrect (some w) ln line source d =
      process_proto_type ln (codes "/**\n" ++ line) source
        (goto State.proto (emit ln (codes "Incorrect use of kernel-doc format: " ++ line) d))
  incorrect none ln line source d = ok d

  abbrev pub inline_end : Option Match → ℕ → Text → Text → KernelDoc → Result KernelDoc
  inline_end (some m) ln line source d = do d' ← dump d; ok (goto State.proto d')
  inline_end none ln line source d = incorrect (content_of line) ln line source d

  abbrev pub inline_begin : Option Match → ℕ → Text → Text → KernelDoc → Result KernelDoc
  inline_begin (some m) ln line source d = ok (
      goto State.inline_text (
        with_entry
          (λ e.
            add_text (lstrip is_space (group_of (codes "2") m))
              (begin_section ln (group_of (codes "1") m) e))
          d))
  inline_begin none ln line source d = inline_end (re_search doc_inline_end line) ln line source d

  unfoldable pub process_inline_name : ℕ → Text → Text → KernelDoc → Result KernelDoc
  unfolding re_search doc_inline_sect doc_inline_end begin_section add_text dump_section group_of
      process_proto_type content_of emit_msg is_space
  process_inline_name ln line source d =
      inline_begin (re_search doc_inline_sect line) ln line source d
