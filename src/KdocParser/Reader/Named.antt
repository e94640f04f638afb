-- ===== src/KdocParser/Reader/Named.antt =====
-- The invariant behind the lines that begin a comment and name what it documents.
use pi_ghost.Base.{
  ℕ, ◌≡◌, sym, Bool, true, false, ◌&&◌, not, Option, none, some, Text, codes, text_eq,
  if◌then◌else◌,
}
use mathlib.Core.Path.{subst}
use pi_ghost.Regex.{Match}
use pi_ghost.Regex.Search.{re_search}
use pi_ghost.KdocParser.Entry.{begin_section, emit_msg}
use pi_ghost.KdocParser.Doc.{State, KernelDoc, begin_comment, is_blank}
use pi_ghost.KdocParser.Names.{
  name_line, begin_declaration, declared, set_purpose, check_purpose, check_identifier, named,
  purpose_rx,
}
use pi_ghost.KdocParser.Sections.Begun.{IsBegun}
use pi_ghost.KdocParser.Reader.Ready.{IsReady, Begun-IsReady}

-- The line that begins a comment, and the one that names what it documents.
pub begin_comment-IsReady :
    (o : Option Match) (ln : ℕ) (d : KernelDoc)
    → d.state ≡ State.normal
    → IsReady (begin_comment o ln d).state (begin_comment o ln d).entry
begin_comment-IsReady (some m) ln d h = tt
begin_comment-IsReady none ln d h = subst (λ st. IsReady st d.entry) (sym h) tt

set_purpose-IsBegun :
    (o : Option Match) (d : KernelDoc) → IsBegun d.entry → IsBegun (set_purpose o d).entry
unfolding set_purpose
set_purpose-IsBegun (some m) d h = h
set_purpose-IsBegun none d h = h

if-IsBegun :
    (b : Bool) (x y : KernelDoc)
    → IsBegun x.entry
    → IsBegun y.entry
    → IsBegun (if b then x else y).entry
if-IsBegun true x y hx hy = hx
if-IsBegun false x y hx hy = hy

check_purpose-IsBegun :
    (w : Bool) (ln : ℕ) (line : Text) (d : KernelDoc)
    → IsBegun d.entry
    → IsBegun (check_purpose w ln line d).entry
unfolding check_purpose emit_msg
check_purpose-IsBegun w ln line d h = if-IsBegun (is_blank d.entry.declaration_purpose && w) _ d h h

check_identifier-IsBegun :
    (ln : ℕ) (line : Text) (d : KernelDoc)
    → IsBegun d.entry
    → IsBegun (check_identifier ln line d).entry
unfolding check_identifier emit_msg
check_identifier-IsBegun ln line d h =
    if-IsBegun (is_blank d.entry.identifier && not (text_eq d.entry.decl_type (codes "enum"))) _ d h
      h

named-IsBegun : (ln : ℕ) (type title : Text) (d : KernelDoc) → IsBegun (named ln type title d).entry
unfolding begin_section
named-IsBegun ln type title d e = cc

begin_declaration-IsReady :
    (o : Option (Text × Text)) (w : Bool) (ln : ℕ) (line found : Text) (d : KernelDoc)
    → IsReady
        (begin_declaration o w ln line found d).state
        (begin_declaration o w ln line found d).entry
unfolding begin_declaration
begin_declaration-IsReady none w ln line found d = tt
begin_declaration-IsReady (some (type, title)) w ln line found d =
    let d1 : KernelDoc = named ln type title d in
    let d2 : KernelDoc = set_purpose (re_search purpose_rx line) d1 in
    let d3 : KernelDoc = check_purpose w ln line d2 in
    let h1 = named-IsBegun ln type title d in
    let h2 = set_purpose-IsBegun (re_search purpose_rx line) d1 h1 in
    let h3 = check_purpose-IsBegun w ln line d2 h2 in
    let d4 : KernelDoc = check_identifier ln line d3 in
    Begun-IsReady d4.state d4.entry (check_identifier-IsBegun ln line d3 h3)

pub name_line-IsReady :
    (o p : Option Match) (w : Bool) (ln : ℕ) (line : Text) (d : KernelDoc)
    → d.state ≡ State.name
    → IsReady (name_line o p w ln line d).state (name_line o p w ln line d).entry
unfolding name_line begin_section emit_msg
name_line-IsReady (some m) p w ln line d h = λ e. cc
name_line-IsReady none (some m) w ln line d h =
    begin_declaration-IsReady (declared line) w ln line _ d
name_line-IsReady none none w ln line d h =
    subst (λ st. IsReady st (name_line none none w ln line d).entry) (sym h) tt
