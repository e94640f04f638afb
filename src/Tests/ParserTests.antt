-- ===== src/Tests/ParserTests.antt =====
-- The state machine of kdoc_parser.py.
use pi_ghost.Base.{
  ◌≡◌, refl, true, false, some, List, [], ◌∷◌, String, Text, codes, ◌++◌, dict_get, pos,
}
use pi_ghost.CLex.Raised.{Result, ok, raised, ◌>>=◌, index_error}
use pi_ghost.Regex.{Match}
use pi_ghost.Regex.Class.{is_space, is_word, is_among}
use pi_ghost.Regex.Search.{match_at, re_search, re_split}
use pi_ghost.KdocParser.Patterns.{type_param, doc_end}
use pi_ghost.KdocParser.Entry.{
  KernelEntry, Message, new_entry, dump_section, contents, section_default,
}
use pi_ghost.KdocParser.Entry.Dumped.{merged, dump_section-sections}
use pi_ghost.KdocParser.Doc.{State, KernelDoc, KdocItem, new_doc}
use pi_ghost.KdocParser.Sections.{content_of}
use pi_ghost.KdocParser.Sections.Docblock.{IsText}
use pi_ghost.KdocParser.Prototype.{Dumper, Dumpers, read_chunks, chunk_rx}
use pi_ghost.KdocParser.Prototype.Chunks.{Nested, Open, read_chunks-declaration, concat}
use pi_ghost.KdocParser.Export.{process_export}
use pi_ghost.KdocParser.Reader.{Config, parse_kdoc}

-- Declarations that are not parsed.
abbrev no_dumper : Dumper
no_dumper ln proto source d = ok d

abbrev no_dumpers : Dumpers
no_dumpers = record {
  dump_typedef = no_dumper;
  dump_struct = no_dumper;
  dump_var = no_dumper;
  dump_function = no_dumper;
}

abbrev config : Config
config = record { wshort_desc = true; store_src = false }

abbrev file : List String → List Text
file [] = []
file (w ∷ ws) = codes w ∷ file ws

abbrev parsed : List String → Result (List Text × KernelDoc)
parsed ws = parse_kdoc config no_dumpers (file ws)

-- What is logged of a comment, and its items' names.
abbrev logged : List String → Result (List Text × List Message)
logged ws = do (symbols, d) ← parsed ws; ok (symbols, d.logged)

abbrev broken : List String
broken = "/**" ∷ " * foo - bar" ∷ " * @a: one" ∷ " *     two" ∷ " broken *" ∷ " */" ∷ []

abbrev whole : List String
whole =
    "/**" ∷ " * foo() - does  it" ∷ " *  well" ∷ " * @a: one" ∷ " *     two" ∷ " *" ∷ " * Text."
    ∷ " * Return: 0" ∷ " * Return: 1" ∷ " */" ∷ "int foo(int a)" ∷ "{" ∷ "}"
    ∷ "EXPORT_SYMBOL_GPL(foo_noprof);" ∷ []

-- The space in front of a line that has no asterisk in front is not there to be trimmed.
broken_raises : logged broken ≡ raised index_error
unfolding parse_kdoc is_word
broken_raises = refl

whole_logged :
    logged whole
    ≡ ok
        (codes "foo" ∷ [], record { line = 8; text = codes "duplicate section name 'Return'" } ∷ [])
unfolding parse_kdoc is_word
whole_logged = refl

exported :
    process_export [] (codes "EXPORT_SYMBOL_NS(kmalloc_noprof, \"MM\");")
    ≡ some (codes "kmalloc" ∷ [])
unfolding process_export is_space is_word
exported = refl

abbrev returns : KernelEntry
returns = record (new_entry 0) {
  sections = (codes "Return", codes "0\n") ∷ [];
  section = some (codes "Return");
  texts = codes "1" ∷ [];
}

dump_section-sections_example :
    (e' : KernelEntry) × (dump_section true returns ≡ ok e')
    × (e'.texts ≡ [])
    × (e'.section ≡ some section_default)
    × (dict_get (codes "Return") e'.sections
        ≡ some (merged (some (codes "0\n")) (contents returns)))
unfolding new_entry
dump_section-sections_example =
    dump_section-sections (codes "Return") (codes "Return") returns refl
      (unfold match_at in unfold type_param in refl) refl

abbrev param_a : Match
param_a = record { taken = codes "@a"; rest = []; groups = (codes "1", codes "a") ∷ [] }

abbrev about_a : KernelEntry
about_a = record (new_entry 0) { section = some (codes "@a"); texts = codes "one" ∷ [] }

abbrev four : KernelEntry
four = record (new_entry 0) { leading_space = some 4 }

-- `struct a { int b; }; int c;`
-- The pieces that re.split makes of "struct a {{} b;}; int c;": between two separators, and before each
-- text, there is an empty one.
abbrev empty_two : List Text
empty_two = [] ∷ ([] ∷ [])

abbrev behind_inner : List Text
behind_inner = ([] ∷ (codes " b" ∷ (codes ";" ∷ ([] ∷ ([] ∷ [])))))

abbrev in_struct : List Text
in_struct = ([] ∷ ([] ∷ (codes "{" ∷ (empty_two ++ (codes "}" ∷ behind_inner)))))

abbrev struct_a : List Text
struct_a = [] ∷ (codes "struct a " ∷ (codes "{" ∷ (in_struct ++ (codes "}" ∷ empty_two))))

abbrev next_member : List Text
next_member = ([] ∷ (codes " int c" ∷ (codes ";" ∷ ([] ∷ []))))

struct_a-split :
    re_split chunk_rx (codes "struct a {{} b;}; int c;") ≡ struct_a ++ (codes ";" ∷ next_member)
unfolding re_split is_among
struct_a-split = refl

empty_two-Nested : Nested empty_two
empty_two-Nested = Nested.piece (λ e. cc, λ e. cc) (Nested.piece (λ e. cc, λ e. cc) Nested.done)

behind_inner-Nested : Nested behind_inner
behind_inner-Nested =
    Nested.piece (λ e. cc, λ e. cc)
      (Nested.piece (λ e. cc, λ e. cc) (Nested.piece (λ e. cc, λ e. cc) empty_two-Nested))

struct_a-Open : Open struct_a
struct_a-Open =
    Open.other (λ e. cc, λ e. cc) (λ e. cc)
      (Open.other (λ e. cc, λ e. cc) (λ e. cc)
        (Open.block in_struct empty_two
          (Nested.piece (λ e. cc, λ e. cc)
            (Nested.piece (λ e. cc, λ e. cc)
              (Nested.braces empty_two behind_inner empty_two-Nested behind_inner-Nested)))
          (Open.other (λ e. cc, λ e. cc) (λ e. cc)
            (Open.other (λ e. cc, λ e. cc) (λ e. cc) Open.none_left))))

read_chunks-declaration_example :
    read_chunks (struct_a ++ (codes ";" ∷ next_member)) [] (pos 0)
    ≡ (concat struct_a ++ codes ";", pos 0, true)
read_chunks-declaration_example = read_chunks-declaration next_member [] struct_a-Open

-- An inline comment of a function, whose text ends in a semicolon.
abbrev foo_proto : KernelDoc
foo_proto = record new_doc {
  state = State.inline_name;
  entry = record (new_entry 0) { decl_type = codes "function" };
}

abbrev oops : List Text
oops = codes "/**\n" ∷ (codes " * oops" ∷ [])

oops-Open : Open oops
oops-Open =
    Open.other (λ e. cc, λ e. cc) (λ e. cc) (Open.other (λ e. cc, λ e. cc) (λ e. cc) Open.none_left)

abbrev block : List (Text × Text)
block = (codes " * One.", []) ∷ ((codes " *  Two.", []) ∷ [])

block-IsText : IsText block (codes "One." ∷ (codes " Two." ∷ []))
unfolding content_of re_search doc_end is_space
block-IsText = IsText.next refl refl (IsText.next refl refl IsText.done)

abbrev returns_doc : KernelDoc
returns_doc = record new_doc { entry = returns }

-- `C` is not described, and `X` is no value.
abbrev an_enum : List String
an_enum =
    "/**" ∷ " * enum foo - bar" ∷ " * @A: one" ∷ " * @X: two" ∷ " */" ∷ "enum foo {"
    ∷ " A = 1, /* a */" ∷ "#ifdef B" ∷ " C," ∷ "#endif" ∷ "};" ∷ []

abbrev lists : List KdocItem → List (List Text × List Message)
lists [] = []
lists (i ∷ is) = (i.parameterlist, i.warnings) ∷ lists is

abbrev items_of : List String → Result (List (List Text × List Message))
items_of ws = do (symbols, d) ← parsed ws; ok (lists d.entries)

an_enum_listed :
    items_of an_enum
    ≡ ok (
        (
          codes "A" ∷ (codes "C" ∷ []),
          record { line = 10; text = codes "Enum value 'C' not described in enum 'foo'" }
              ∷ (record { line = 10; text = codes "Excess enum value '@X' description in 'foo'" }
                  ∷ []),
        )
        ∷ [])
unfolding parse_kdoc is_word
an_enum_listed = refl

abbrev described_a : KernelEntry
described_a = record (new_entry 0) { parameterdescs = (codes "A", codes "one\n") ∷ [] }
