-- ===== src/CLex/Token.antt =====
-- `CToken`: the kinds of tokens, and a token with its position and its nesting levels.
use pi_ghost.Base.{
  ℕ, ◌+◌, ◌≡◌, refl, Bool, ◌&&◌, List, [], ◌∷◌, ◌==◌, if◌then◌else◌, Text, codes, text_eq,
}

pub data Kind : Type 0 where
  comment string char number punc begin end cpp hash op : Kind
  struct union enum typedef name space endstmt backref mismatch : Kind

-- `to_name`, over the values of the enumeration.
unfoldable pub to_name : Kind → Text
to_name comment = codes "COMMENT"
to_name string = codes "STRING"
to_name char = codes "CHAR"
to_name number = codes "NUMBER"
to_name punc = codes "PUNC"
to_name begin = codes "BEGIN"
to_name end = codes "END"
to_name cpp = codes "CPP"
to_name hash = codes "HASH"
to_name op = codes "OP"
to_name struct = codes "STRUCT"
to_name union = codes "UNION"
to_name enum = codes "ENUM"
to_name typedef = codes "TYPEDEF"
to_name name = codes "NAME"
to_name space = codes "SPACE"
to_name endstmt = codes "ENDSTMT"
to_name backref = codes "BACKREF"
to_name mismatch = codes "MISMATCH"

abbrev all_kinds : List Kind
all_kinds =
    comment ∷ string ∷ char ∷ number ∷ punc ∷ begin ∷ end ∷ cpp ∷ hash ∷ op ∷ struct ∷ union ∷ enum
    ∷ typedef ∷ name ∷ space ∷ endstmt ∷ backref ∷ mismatch ∷ []

named : Text → List Kind → Kind
unfolding to_name
named w [] = mismatch
named w (k ∷ ks) = if text_eq (to_name k) w then k else named w ks

-- `from_name`: the kind of a name, MISMATCH for no name of a kind.
unfoldable pub from_name : Text → Kind
unfolding named
from_name w = named w all_kinds

pub from_name-to_name : (k : Kind) → from_name (to_name k) ≡ k
unfolding from_name to_name
from_name-to_name comment = refl
from_name-to_name _ = refl

abbrev rank : Kind → ℕ
rank comment = 0
rank string = 1
rank char = 2
rank number = 3
rank punc = 4
rank begin = 5
rank end = 6
rank cpp = 7
rank hash = 8
rank op = 9
rank struct = 10
rank union = 11
rank enum = 12
rank typedef = 13
rank name = 14
rank space = 15
rank endstmt = 16
rank backref = 17
rank mismatch = 255

-- `==` on kinds, which are integers in the program.
abbrev pub kind_eq : Kind → Kind → Bool
kind_eq j k = rank j == rank k

-- The tuple `level`: how many delimiters of each sort are open.
pub record Level : Type 0 where
  pub bracket : ℕ
  pub paren : ℕ
  pub brace : ℕ

abbrev pub level_eq : Level → Level → Bool
level_eq a b = a.bracket == b.bracket && a.paren == b.paren && a.brace == b.brace

abbrev pub ground_level : Level
ground_level = record { bracket = 0; paren = 0; brace = 0 }

-- `new_tok.level[i] + level[i]`, at each `i`.
abbrev pub add_level : Level → Level → Level
add_level a b = record {
  bracket = a.bracket + b.bracket;
  paren = a.paren + b.paren;
  brace = a.brace + b.brace;
}

pub record CToken : Type 0 where
  pub kind : Kind
  pub value : Text
  pub pos : ℕ
  pub level : Level
