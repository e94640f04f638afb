-- ===== src/KdocParser/Names.antt =====
-- The line of a comment that names what it documents: `process_name`, where `config.wshort_desc`
-- is an argument.
use pi_ghost.Base.{
  ℕ, ◌+◌, Bool, not, ◌&&◌, Option, none, some, [], ◌++◌, ◌==◌, if◌then◌else◌, Text, text_eq, codes,
}
use pi_ghost.Regex.{Match, Rx, one, seq, star, group}
use pi_ghost.Regex.Class.{is_among, not_newline}
use pi_ghost.Regex.Search.{re_search, group_of}
use pi_ghost.KdocParser.Strings.{strip, trim_whitespace}
use pi_ghost.KdocParser.Patterns.{doc_decl, doc_block, doc_begin_data, doc_begin_func}
use pi_ghost.KdocParser.Entry.{emit_msg, begin_section, section_default}
use pi_ghost.KdocParser.Doc.{State, KernelDoc, goto, with_entry, emit, is_blank}

-- The groups of the declaration line: the type and the name.
abbrev function_of : Option Match → Option (Text × Text)
function_of (some m) = some (codes "function", group_of (codes "1") m)
function_of none = none

abbrev declared_of : Option Match → Option (Text × Text) → Option (Text × Text)
declared_of (some m) other = some (group_of (codes "1") m, group_of (codes "2") m)
declared_of none other = other

unfoldable pub declared : Text → Option (Text × Text)
unfolding re_search group_of doc_begin_data doc_begin_func
declared line =
    declared_of (re_search doc_begin_data line) (function_of (re_search doc_begin_func line))

-- `[-:](.*)`
abbrev pub purpose_rx : Rx
purpose_rx = seq (one (is_among (codes "-:"))) (group (codes "1") (star (one not_newline)))

-- The description behind the name, where there is one, and the state behind it.
unfoldable pub set_purpose : Option Match → KernelDoc → KernelDoc
unfolding group_of trim_whitespace
set_purpose (some m) d = goto State.declaration (
    with_entry (λ e. record e { declaration_purpose = trim_whitespace (group_of (codes "1") m) }) d)
set_purpose none d = with_entry (λ e. record e { declaration_purpose = [] }) d

abbrev no_kernel_doc : Text
no_kernel_doc =
    codes
      "This comment starts with '/**', but isn't a kernel-doc comment. Refer to Documentation/doc-guide/kernel-doc.rst\n"

abbrev no_description : Text
no_description = codes "missing initial short description on line:\n"

abbrev wrong_identifier : Text
wrong_identifier = codes "wrong kernel-doc identifier on line:\n"

abbrev no_identifier : Text
no_identifier = codes "Cannot find identifier on line:\n"

unfoldable pub check_purpose : Bool → ℕ → Text → KernelDoc → KernelDoc
unfolding emit_msg
check_purpose wshort_desc ln line d =
    if is_blank d.entry.declaration_purpose && wshort_desc
    then emit ln (no_description ++ line) d
    else d

unfoldable pub check_identifier : ℕ → Text → KernelDoc → KernelDoc
unfolding emit_msg
check_identifier ln line d =
    if is_blank d.entry.identifier && not (text_eq d.entry.decl_type (codes "enum"))
    then goto State.normal (emit ln (wrong_identifier ++ line) d)
    else d

abbrev pub named : ℕ → Text → Text → KernelDoc → KernelDoc
named ln type title d =
    with_entry
      (λ e.
        begin_section (ln + 1) section_default
          (record e { decl_type = type; identifier = strip (λ c. c == b' ') title }))
      (goto State.body d)

-- A declaration line, whose identifier is `doc_decl`'s unless one of the two forms matches.
unfoldable pub begin_declaration :
    Option (Text × Text) → Bool → ℕ → Text → Text → KernelDoc → KernelDoc
unfolding re_search begin_section emit_msg set_purpose check_purpose check_identifier is_among
begin_declaration none wshort_desc ln line found d =
    goto State.normal
      (emit ln (no_kernel_doc ++ line) (with_entry (λ e. record e { identifier = found }) d))
begin_declaration (some (type, title)) wshort_desc ln line found d = check_identifier ln line (
    check_purpose wshort_desc ln line
      (set_purpose (re_search purpose_rx line) (named ln type title d)))

abbrev or_introduction : Text → Text
or_introduction [] = codes "Introduction"
or_introduction w = w

-- A `DOC:` block, or else a declaration, or else no name.
unfoldable pub name_line : Option Match → Option Match → Bool → ℕ → Text → KernelDoc → KernelDoc
unfolding group_of begin_section begin_declaration declared emit_msg
name_line (some m) other wshort_desc ln line d =
    let title = or_introduction (group_of (codes "1") m) in
    goto State.docblock
      (with_entry (λ e. record (begin_section ln title e) { identifier = title }) d)
name_line none (some m) wshort_desc ln line d =
    begin_declaration (declared line) wshort_desc ln line (group_of (codes "1") m) d
name_line none none wshort_desc ln line d = emit ln (no_identifier ++ line) d

-- `verbose` only adds a message of `log.info`.
unfoldable pub process_name : Bool → ℕ → Text → KernelDoc → KernelDoc
unfolding re_search doc_block doc_decl name_line
process_name wshort_desc ln line d =
    name_line (re_search doc_block line) (re_search doc_decl line) wshort_desc ln line d
