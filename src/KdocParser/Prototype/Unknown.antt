-- ===== src/KdocParser/Prototype/Unknown.antt =====
-- A comment in the prototype of a function that `process_proto_type` takes for a declaration.
use pi_ghost.Base.{ℕ, ◌≡◌, ◌≢◌, refl, ap, ◌∙◌, none, some, List, [], ◌∷◌, ◌++◌, Text, codes, pos}
use pi_ghost.CLex.Raised.{ok, raised, ◌>>=◌, attribute_error}
use pi_ghost.Regex.Class.{is_space}
use pi_ghost.Regex.Search.{re_search, re_split, sub}
use pi_ghost.KdocParser.Strings.{strip}
use pi_ghost.KdocParser.Patterns.{doc_inline_sect, doc_inline_end}
use pi_ghost.KdocParser.Entry.{emit_msg}
use pi_ghost.KdocParser.Doc.{State, KernelDoc, goto, emit, reset_state}
use pi_ghost.KdocParser.Sections.{content_of}
use pi_ghost.KdocParser.Prototype.{
  Dumpers, dump_declaration, read_chunks, type_chunks, type_line, process_proto_type, directive_end,
  chunk_rx, line_comment, process_inline_name, inline_begin, inline_end, incorrect,
}
use pi_ghost.KdocParser.Prototype.Chunks.{Open, read_chunks-declaration}

dump_declaration-function :
    (ds : Dumpers) (ln : ℕ) (proto source : Text) (d : KernelDoc)
    → d.entry.decl_type ≡ codes "function"
    → dump_declaration ds ln proto source d ≡ raised attribute_error
unfolding dump_declaration
dump_declaration-function ds ln proto source d h = rw h refl

type_line-function :
    (ds : Dumpers) (ln : ℕ) (w source : Text) (d : KernelDoc) (ws more : List Text)
    → w ≢ []
    → re_split chunk_rx (directive_end w) ≡ ws ++ (codes ";" ∷ more)
    → Open ws
    → d.entry.brcount ≡ pos 0
    → d.entry.decl_type ≡ codes "function"
    → type_line ds ln w source d ≡ raised attribute_error
type_line-function ds ln [] source d ws more n s o b t = absurd (n refl)
type_line-function ds ln (c ∷ w) source d ws more n s o b t =
    let p = d.entry.prototype in
    ap (λ cs. type_chunks ds ln source d (read_chunks cs p d.entry.brcount)) s
    ∙ ap (λ k. type_chunks ds ln source d (read_chunks (ws ++ (codes ";" ∷ more)) p k)) b
    ∙ ap (type_chunks ds ln source d) (read_chunks-declaration more p o)
    ∙ ap (λ m. m >>= λ d'. ok (reset_state ln d')) (dump_declaration-function ds ln _ source _ t)

-- In the prototype of a function, where a comment's first line is neither that of a parameter nor
-- the end of the comment, and has a semicolon outside all braces with no brace open before it,
-- `process_inline_name` raises `AttributeError`: `dump_declaration` has no parser for a function.
process_inline_name-function :
    (ds : Dumpers) (ln : ℕ) (line source w found : Text) (d : KernelDoc) (ws more : List Text)
    → re_search doc_inline_sect line ≡ none
    → re_search doc_inline_end line ≡ none
    → content_of line ≡ some found
    → strip is_space (sub line_comment (λ m. []) (codes "/**\n" ++ line)) ≡ w
    → w ≢ []
    → re_split chunk_rx (directive_end w) ≡ ws ++ (codes ";" ∷ more)
    → Open ws
    → d.entry.brcount ≡ pos 0
    → d.entry.decl_type ≡ codes "function"
    → process_inline_name ds ln line source d ≡ raised attribute_error
unfolding process_inline_name process_proto_type emit_msg
process_inline_name-function ds ln line source w found d ws more i e c s n r o b t =
    let d' : KernelDoc =
      goto State.proto (emit ln (codes "Incorrect use of kernel-doc format: " ++ line) d) in
    ap (λ m. inline_begin ds m ln line source d) i
    ∙ ap (λ m. inline_end ds m ln line source d) e
    ∙ ap (λ f. incorrect ds f ln line source d) c
    ∙ ap (λ v. type_line ds ln v source d') s
    ∙ type_line-function ds ln w source d' ws more n r o b t
