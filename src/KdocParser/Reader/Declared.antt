-- ===== src/KdocParser/Reader/Declared.antt =====
-- The invariant behind the lines of a prototype.
use pi_ghost.Base.{
  ℕ, sym, Bool, true, false, ◌||◌, Option, none, some, [], ◌∷◌, Text, codes, text_eq, ℤ,
  if◌then◌else◌,
}
use mathlib.Core.Path.{subst}
use pi_ghost.CLex.Raised.{Result, ok, raised, ◌>>=◌}
use pi_ghost.Regex.{Match}
use pi_ghost.Regex.Class.{is_space}
use pi_ghost.Regex.Search.{re_search, group_of, sub}
use pi_ghost.KdocParser.Entry.{begin_section, add_text, emit_msg}
use pi_ghost.KdocParser.Doc.{State, KernelDoc, goto}
use pi_ghost.KdocParser.Sections.Begun.{IsBegun, dump_section-Begun}
use pi_ghost.CLex.Raised.{attribute_error}
use pi_ghost.KdocParser.Reader.Ready.{Ready, Begun-IsReady, NotUnset}
use pi_ghost.KdocParser.Doc.{reset_state, with_entry}
use pi_ghost.KdocParser.Entry.{emit_msg}
use pi_ghost.KdocParser.Patterns.{doc_inline_end, doc_inline_start}
use pi_ghost.KdocParser.Sections.{content_of}
use pi_ghost.KdocParser.Strings.{strip, contains}
use pi_ghost.KdocParser.Enum.{dump_enum}
use pi_ghost.KdocParser.Prototype.{
  Dumper, Dumpers, dump_declaration, line_comment, type_chunks, type_line, process_proto_type,
  function_end, function_line, process_proto_function, munge, declaration_line, begin_inline,
  proto_line, incorrect, inline_end, inline_begin, more_prototype, clean_prototype, is_define,
}
use pi_ghost.KdocParser.Reader.Handled.{dump-Ready}

-- A parser of a whole declaration reads no section that has not begun.
abbrev pub NeverUnset : Dumper → Type 0
NeverUnset dumper =
    (ln : ℕ) (proto source : Text) (d : KernelDoc) → NotUnset (dumper ln proto source d)

abbrev pub IsSafe : Dumpers → Type 0
IsSafe ds =
    NeverUnset ds.dump_typedef
    × NeverUnset ds.dump_struct
    × NeverUnset ds.dump_var
    × NeverUnset ds.dump_function

if-NotUnset :
    (b : Bool) (m n : Result KernelDoc) → NotUnset m → NotUnset n → NotUnset (if b then m else n)
if-NotUnset true m n hm hn = hm
if-NotUnset false m n hm hn = hn

dump_declaration-NotUnset : (ds : Dumpers) → IsSafe ds → NeverUnset (dump_declaration ds)
unfolding dump_declaration dump_enum
dump_declaration-NotUnset ds (typedef, struct, var, function) ln proto source d =
    let type = d.entry.decl_type in
    if-NotUnset (text_eq type (codes "enum")) (dump_enum ln proto source d) _ tt (
      if-NotUnset (text_eq type (codes "typedef")) _ _ (typedef ln proto source d) (
        if-NotUnset (text_eq type (codes "union") || text_eq type (codes "struct")) _ _
          (struct ln proto source d)
          (if-NotUnset (text_eq type (codes "var")) _ (raised attribute_error)
            (var ln proto source d) (λ e. cc))))

reset-Ready : (m : Result KernelDoc) (ln : ℕ) → NotUnset m → Ready (do d ← m; ok (reset_state ln d))
unfolding reset_state
reset-Ready (ok d) ln h = tt
reset-Ready (raised x) ln h = h

module _ (ds : Dumpers) (safe : IsSafe ds) where
  type_chunks-Ready :
      (ln : ℕ) (source : Text) (d : KernelDoc) (r : Text × ℤ × Bool)
      → IsBegun d.entry
      → Ready (type_chunks ds ln source d r)
  type_chunks-Ready ln source d (p, n, true) h =
      reset-Ready _ ln (dump_declaration-NotUnset ds safe ln p source _)
  type_chunks-Ready ln source d (p, n, false) h = Begun-IsReady d.state _ h

  type_line-Ready :
      (ln : ℕ) (line source : Text) (d : KernelDoc)
      → IsBegun d.entry
      → Ready (type_line ds ln line source d)
  type_line-Ready ln [] source d h = Begun-IsReady d.state _ h
  type_line-Ready ln (c ∷ w) source d h = type_chunks-Ready ln source d _ h

  process_proto_type-Ready :
      (ln : ℕ) (line source : Text) (d : KernelDoc)
      → IsBegun d.entry
      → Ready (process_proto_type ds ln line source d)
  unfolding process_proto_type
  process_proto_type-Ready ln line source d h =
      type_line-Ready ln (strip is_space (sub line_comment (λ m. []) line)) source d h

  function_end-Ready :
      (ln : ℕ) (source : Text) (r : KernelDoc × Text) → Ready (function_end ds ln source r)
  function_end-Ready ln source (d, w) = reset-Ready _ ln (safe.3 ln w source _)

  if-Ready : (b : Bool) (m n : Result KernelDoc) → Ready m → Ready n → Ready (if b then m else n)
  if-Ready true m n hm hn = hm
  if-Ready false m n hm hn = hn

  function_line-Ready :
      (ln : ℕ) (line source : Text) (d : KernelDoc)
      → IsBegun d.entry
      → Ready (function_line ds ln line source d)
  function_line-Ready ln line source d h =
      let clean = clean_prototype (more_prototype line d.entry.prototype) in
      if-Ready (contains (codes "{") line || contains (codes ";") line || is_define line) _ _
        (function_end-Ready ln source
          (munge ln clean (with_entry (λ e. record e { prototype = clean }) d)))
        (Begun-IsReady d.state _ h)

  process_proto_function-Ready :
      (ln : ℕ) (line source : Text) (d : KernelDoc)
      → IsBegun d.entry
      → Ready (process_proto_function ds ln line source d)
  unfolding process_proto_function
  process_proto_function-Ready ln line source d h =
      function_line-Ready ln (sub line_comment (λ m. []) line) source d h

  declaration_line-Ready :
      (ln : ℕ) (line source : Text) (d : KernelDoc)
      → IsBegun d.entry
      → Ready (declaration_line ds ln line source d)
  declaration_line-Ready ln line source d h =
      if-Ready (text_eq d.entry.decl_type (codes "function")) _ _
        (process_proto_function-Ready ln line source d h)
        (process_proto_type-Ready ln line source d h)

  begin_inline-Ready :
      (o : Option Match) (ln : ℕ) (line source : Text) (d : KernelDoc)
      → IsBegun d.entry
      → Ready (begin_inline ds o ln line source d)
  begin_inline-Ready (some m) ln line source d h = h
  begin_inline-Ready none ln line source d h = declaration_line-Ready ln line source d h

  pub proto_line-Ready :
      (o : Option Match) (ln : ℕ) (line source : Text) (d : KernelDoc)
      → IsBegun d.entry
      → Ready (proto_line ds o ln line source d)
  unfolding begin_section add_text
  proto_line-Ready (some m) ln line source d h =
      let d1 : KernelDoc =
        with_entry
          (λ e. add_text (group_of (codes "2") m) (begin_section ln (group_of (codes "1") m) e))
          d in
      let (e, eq, he) = dump_section-Begun d1.entry (λ x. cc) in
      subst (λ r. Ready (do e ← r; ok (record d1 { entry = e }))) (sym eq)
        (Begun-IsReady d1.state e he)
  proto_line-Ready none ln line source d h =
      begin_inline-Ready (re_search doc_inline_start line) ln line source d h

  incorrect-Ready :
      (o : Option Text) (ln : ℕ) (line source : Text) (d : KernelDoc)
      → IsBegun d.entry
      → Ready (incorrect ds o ln line source d)
  unfolding emit_msg
  incorrect-Ready (some w) ln line source d h = process_proto_type-Ready ln _ source _ h
  incorrect-Ready none ln line source d h = Begun-IsReady d.state _ h

  inline_end-Ready :
      (o : Option Match) (ln : ℕ) (line source : Text) (d : KernelDoc)
      → IsBegun d.entry
      → Ready (inline_end ds o ln line source d)
  inline_end-Ready (some m) ln line source d h = dump-Ready (goto State.proto) d h (λ e he. he)
  inline_end-Ready none ln line source d h = incorrect-Ready (content_of line) ln line source d h

  pub inline_begin-Ready :
      (o : Option Match) (ln : ℕ) (line source : Text) (d : KernelDoc)
      → IsBegun d.entry
      → Ready (inline_begin ds o ln line source d)
  unfolding begin_section add_text
  inline_begin-Ready (some m) ln line source d h = λ x. cc
  inline_begin-Ready none ln line source d h =
      inline_end-Ready (re_search doc_inline_end line) ln line source d h
