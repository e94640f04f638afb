-- ===== src/KdocParser/Patterns.antt =====
-- The regular expressions at the top of kdoc_parser.py.
use pi_ghost.Base.{ℕ, Bool, not, ◌||◌, List, [], ◌∷◌, String, codes, Text, ◌==◌}
use pi_ghost.Regex.{Rx, start, end, edge, one, seq, alt, star, group, lit, plus, opt, row, bars}
use pi_ghost.Regex.Class.{is_space, is_word, not_newline, is_among, is_none_of}
use pi_ghost.KdocParser.Strings.{lower}

abbrev spaces : Rx
spaces = star (one is_space)

abbrev word : Rx
word = plus (one is_word)

abbrev g1 : Rx → Rx
g1 = group (codes "1")

abbrev g2 : Rx → Rx
g2 = group (codes "2")

abbrev text : String → Rx
text w = lit (codes w)

abbrev dots : Rx
dots = star (one not_newline)

unfoldable pub doc_start : Rx
doc_start = row start (text "/**" ∷ spaces ∷ end ∷ [])

unfoldable pub doc_end : Rx
doc_end = text "*/"

unfoldable pub doc_com : Rx
doc_com = row spaces (text "*" ∷ spaces ∷ [])

unfoldable pub doc_decl : Rx
unfolding doc_com
doc_decl = seq doc_com (g1 word)

-- A literal without regard to case.
abbrev ilit : Text → Rx
ilit [] = Rx.eps
ilit (c ∷ w) = seq (one (λ d. lower d == c)) (ilit w)

abbrev itext : String → Rx
itext w = ilit (codes w)

unfoldable pub known_section_names : Rx
known_section_names = bars (itext "description") (
    itext "context"
    ∷ seq (itext "return") (opt (itext "s"))
    ∷ seq (itext "note") (opt (itext "s"))
    ∷ seq (itext "example") (opt (itext "s"))
    ∷ [])

abbrev dot_or_word : ℕ → Bool
dot_or_word c = c == b'.' || is_word c

unfoldable pub doc_sect : Rx
unfolding doc_com known_section_names
doc_sect = row doc_com (
    spaces
    ∷ g1 (bars (seq (text "@") (plus (one dot_or_word))) (text "@..." ∷ known_section_names ∷ []))
    ∷ spaces
    ∷ text ":"
    ∷ opt (g2 (seq (one (is_none_of (codes ":"))) dots))
    ∷ end
    ∷ [])

unfoldable pub doc_com_body : Rx
doc_com_body = row spaces (text "*" ∷ opt (text " ") ∷ [])

unfoldable pub doc_content : Rx
unfolding doc_com_body
doc_content = seq doc_com_body (g1 dots)

-- `@\s*[\w][\w\.]*\s*`
abbrev inline_param : Rx
inline_param = g1 (row (text "@") (spaces ∷ one is_word ∷ star (one dot_or_word) ∷ spaces ∷ []))

unfoldable pub doc_inline_start : Rx
doc_inline_start = row start (spaces ∷ text "/**" ∷ spaces ∷ end ∷ [])

unfoldable pub doc_inline_sect : Rx
doc_inline_sect = row spaces (text "*" ∷ spaces ∷ inline_param ∷ text ":" ∷ g2 dots ∷ [])

unfoldable pub doc_inline_end : Rx
doc_inline_end = row start (spaces ∷ text "*/" ∷ spaces ∷ end ∷ [])

unfoldable pub doc_inline_oneline : Rx
doc_inline_oneline = row start (
    spaces
    ∷ text "/**"
    ∷ spaces
    ∷ inline_param
    ∷ text ":"
    ∷ spaces
    ∷ g2 dots
    ∷ spaces
    ∷ text "*/"
    ∷ spaces
    ∷ end
    ∷ [])

-- `(_GPL)?\s*\(\s*(\w+)\s*` behind the name of the macro.
abbrev exported : String → List Rx
exported w = text w ∷ opt (g1 (text "_GPL")) ∷ spaces ∷ text "(" ∷ spaces ∷ g2 word ∷ spaces ∷ []

abbrev rest_of_row : List Rx → List Rx → List Rx
rest_of_row [] ys = ys
rest_of_row (x ∷ xs) ys = x ∷ rest_of_row xs ys

unfoldable pub export_symbol : Rx
export_symbol = row start (spaces ∷ rest_of_row (exported "EXPORT_SYMBOL") (text ")" ∷ spaces ∷ []))

unfoldable pub export_symbol_ns : Rx
export_symbol_ns = row start (
    spaces
    ∷ rest_of_row (exported "EXPORT_SYMBOL_NS") (
        text ","
        ∷ spaces
        ∷ text "\""
        ∷ plus (one (λ c. not (is_space c)))
        ∷ text "\")"
        ∷ spaces
        ∷ []))

unfoldable pub type_param : Rx
type_param = seq (text "@") (
    g1 (
      row (star (one is_word)) (
        star (
          group (codes "2") (
            alt (group (codes "3") (seq (text ".") word))
              (group (codes "4") (seq (text "->") word))))
        ∷ opt (group (codes "5") (text "..."))
        ∷ [])))

unfoldable pub doc_block : Rx
unfolding doc_com
doc_block = row doc_com (text "DOC:" ∷ spaces ∷ opt (g1 dots) ∷ [])

unfoldable pub doc_begin_data : Rx
doc_begin_data = row start (
    spaces
    ∷ opt (text "*")
    ∷ spaces
    ∷ g1 (bars (text "struct") (text "union" ∷ text "enum" ∷ text "typedef" ∷ text "var" ∷ []))
    ∷ edge
    ∷ spaces
    ∷ g2 (star (one is_word))
    ∷ [])

unfoldable pub doc_begin_func : Rx
unfolding doc_com
doc_begin_func = row doc_com (
    opt (row word (spaces ∷ text "*" ∷ spaces ∷ []))
    ∷ opt (seq (text "define") (plus (one is_space)))
    ∷ g1 word
    ∷ spaces
    ∷ opt (row (text "(") (star (one is_word) ∷ text ")" ∷ []))
    ∷ spaces
    ∷ opt (seq (one (is_among (codes "-:"))) dots)
    ∷ end
    ∷ [])
