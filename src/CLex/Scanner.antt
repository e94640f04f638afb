-- ===== src/CLex/Scanner.antt =====
-- `RE_SCANNER_LIST`, `fill_re_scanner`, `RE_SCANNER`, `RE_CONT` and `RE_COMMENT_START`.
use pi_ghost.Base.{ℕ, Bool, ◌||◌, List, [], ◌∷◌, codes, String}
use pi_ghost.Regex.{Rx, one, seq, alt, star, lazy, edge, group, lit, plus, opt, row, bars}
use pi_ghost.Regex.Class.{
  is_digit, is_letter, is_word, is_space, is_among, is_none_of, any_char, not_newline, within,
}
use pi_ghost.CLex.Token.{
  Kind, comment, string, char, number, punc, begin, end, cpp, hash, op, struct, union, enum,
  typedef, name, space, endstmt, backref, mismatch, to_name,
}

abbrev char_of : String → Rx
char_of w = one (is_among (codes w))

abbrev char_not_of : String → Rx
char_not_of w = one (is_none_of (codes w))

abbrev word : String → Rx
word w = lit (codes w)

abbrev digits : Rx
digits = plus (one is_digit)

pub is_hex : ℕ → Bool
unfolding is_digit
is_hex c = is_digit c || within b'a' b'f' c || within b'A' b'F' c

-- `//[^\n]*|/\*[\s\S]*?\*/`
abbrev comment_rx : Rx
comment_rx =
    alt (seq (word "//") (star (char_not_of "\n")))
      (row (word "/*") (lazy (one any_char) ∷ word "*/" ∷ []))

-- `"(?:\\.|[^"\\])*"`
abbrev string_rx : Rx
string_rx =
    row (word "\"")
      (star (alt (seq (word "\\") (one not_newline)) (char_not_of "\"\\")) ∷ word "\"" ∷ [])

-- `'(?:\\.|[^'\\])'`
abbrev char_rx : Rx
char_rx =
    row (word "'") (alt (seq (word "\\") (one not_newline)) (char_not_of "'\\") ∷ word "'" ∷ [])

-- `0[xX][\da-fA-F]+[uUlL]*`, `0[0-7]+[uUlL]*` and `\d+(?:\.\d*)?(?:[eE][+-]?\d+)?[fFlL]*`
abbrev hex_rx : Rx
hex_rx = row (word "0") (char_of "xX" ∷ plus (one is_hex) ∷ star (char_of "uUlL") ∷ [])

abbrev octal_rx : Rx
octal_rx = row (word "0") (plus (one (within b'0' b'7')) ∷ star (char_of "uUlL") ∷ [])

abbrev decimal_rx : Rx
decimal_rx = row digits (
    opt (seq (word ".") (star (one is_digit)))
    ∷ opt (row (char_of "eE") (opt (char_of "+-") ∷ digits ∷ []))
    ∷ star (char_of "fFlL")
    ∷ [])

abbrev number_rx : Rx
number_rx = bars hex_rx (octal_rx ∷ decimal_rx ∷ [])

-- `(?:\s+;|;)`
abbrev endstmt_rx : Rx
endstmt_rx = alt (seq (plus (one is_space)) (word ";")) (word ";")

-- `#\s*(?:define|include|…|pragma)\b`
abbrev cpp_rx : Rx
cpp_rx = row (word "#") (
    star (one is_space)
    ∷ bars (word "define") (
        word "include"
        ∷ word "ifdef"
        ∷ word "ifndef"
        ∷ word "if"
        ∷ word "else"
        ∷ word "elif"
        ∷ word "endif"
        ∷ word "undef"
        ∷ word "pragma"
        ∷ [])
    ∷ edge
    ∷ [])

abbrev op_rx : Rx
op_rx = bars (word "++") (
    word "--"
    ∷ word "->"
    ∷ word "=="
    ∷ word "!="
    ∷ word "<="
    ∷ word ">="
    ∷ word "&&"
    ∷ word "||"
    ∷ word "<<"
    ∷ word ">>"
    ∷ word "+="
    ∷ word "-="
    ∷ word "*="
    ∷ word "/="
    ∷ word "%="
    ∷ word "&="
    ∷ word "|="
    ∷ word "^="
    ∷ char_of "=+-*/%<>&|^~!?:"
    ∷ [])

-- `\bstruct\b`
abbrev keyword : String → Rx
keyword w = row edge (word w ∷ edge ∷ [])

pub record Rule : Type 0 where
  pub kind : Kind
  pub pattern_rx : Rx

abbrev rule : Kind → Rx → Rule
rule k x = record { kind = k; pattern_rx = x }

abbrev pub first_rule : Rule
first_rule = rule comment comment_rx

abbrev pub other_rules : List Rule
other_rules =
    rule string string_rx
    ∷ rule char char_rx
    ∷ rule number number_rx
    ∷ rule endstmt endstmt_rx
    ∷ rule punc (char_of ",.")
    ∷ rule begin (char_of "[({")
    ∷ rule end (char_of "])}")
    ∷ rule cpp cpp_rx
    ∷ rule hash (word "#")
    ∷ rule op op_rx
    ∷ rule struct (keyword "struct")
    ∷ rule union (keyword "union")
    ∷ rule enum (keyword "enum")
    ∷ rule typedef (keyword "typedef")
    ∷ rule name (seq (one is_letter) (star (one is_word)))
    ∷ rule space (plus (one is_space))
    ∷ rule backref (seq (word "\\") digits)
    ∷ rule mismatch (one not_newline)
    ∷ []

-- `(?P<NAME>pattern)`
abbrev named_group : Rule → Rx
unfolding to_name
named_group r = group (to_name r.kind) r.pattern_rx

-- The named groups of the list, between bars. The flags of the call are the argument `cache` of
-- `KernRe`, so no flag is set.
unfoldable pub fill_re_scanner : Rule → List Rule → Rx
unfolding named_group
fill_re_scanner r [] = named_group r
fill_re_scanner r (q ∷ qs) = alt (named_group r) (fill_re_scanner q qs)

unfoldable pub re_scanner : Rx
unfolding fill_re_scanner is_digit is_letter is_word is_space is_among is_hex
re_scanner = fill_re_scanner first_rule other_rules

-- `\\\n`
abbrev pub re_cont : Rx
re_cont = word "\\\n"

-- `/\*\s*`
abbrev pub re_comment_start : Rx
re_comment_start = seq (word "/*") (star (one is_space))
