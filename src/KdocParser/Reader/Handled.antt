-- ===== src/KdocParser/Reader/Handled.antt =====
-- The invariant behind the lines of a comment and of a prototype.
use pi_ghost.Base.{
  ℕ, zero, suc, ◌==◌, sym, Bool, true, false, Option, none, some, [], ◌∷◌, Text, if◌then◌else◌,
}
use mathlib.Core.Path.{subst}
use pi_ghost.CLex.Raised.{Result, ok, raised, ◌>>=◌}
use pi_ghost.Regex.{Match}
use pi_ghost.Regex.Search.{re_search}
use pi_ghost.KdocParser.Entry.{KernelEntry, begin_section, section_default, add_text, emit_msg}
use pi_ghost.KdocParser.Doc.{State, KernelDoc, goto}
use pi_ghost.KdocParser.Sections.Begun.{IsBegun, dump_section-Begun}
use pi_ghost.KdocParser.Reader.Ready.{Ready, Begun-IsReady, NotUnset}
use pi_ghost.KdocParser.Doc.{dump, reset_state, with_entry}
use pi_ghost.KdocParser.Entry.{emit_msg}
use pi_ghost.KdocParser.Patterns.{doc_sect, doc_end}
use pi_ghost.KdocParser.Sections.{
  is_new_section, is_comment_end, section_end_or, returned_or, content_of, docblock_text,
  docblock_line, output_docblock, inline_line,
}
use pi_ghost.KdocParser.Sections.Begun.{BegunOrLeft, new_section-Begun, comment_end-Begun}
use pi_ghost.KdocParser.Special.{
  spaces_within, known_space, add_special, special_text, special_line,
}

returned_or-Ready :
    (m : Result (Option KernelDoc)) (rest : Result KernelDoc)
    → BegunOrLeft m
    → Ready rest
    → Ready (returned_or m rest)
returned_or-Ready (raised x) rest h r = absurd h
returned_or-Ready (ok (some d)) rest h r = Begun-IsReady d.state d.entry h
returned_or-Ready (ok none) rest h r = r

section_end_or-Ready :
    (rest : Result KernelDoc) (ln : ℕ) (line : Text) (d : KernelDoc)
    → IsBegun d.entry
    → Ready rest
    → Ready (section_end_or rest ln line d)
unfolding section_end_or is_new_section is_comment_end
section_end_or-Ready rest ln line d h r =
    returned_or-Ready (is_new_section ln line d) _
      (new_section-Begun (re_search doc_sect line) ln d h)
      (returned_or-Ready (is_comment_end ln line d) rest
        (comment_end-Begun (re_search doc_end line) ln line d h) r)

-- What follows a dump.
pub dump-Ready :
    (f : KernelDoc → KernelDoc) (d : KernelDoc)
    → IsBegun d.entry
    → ((e : KernelEntry) → IsBegun e → Ready (ok (f (record d { entry = e }))))
    → Ready (do d' ← dump d; ok (f d'))
dump-Ready f d h k =
    let (e, eq, he) = dump_section-Begun d.entry h in
    subst (λ m. Ready (do d' ← (do e ← m; ok (record d { entry = e })); ok (f d'))) (sym eq)
      (k e he)

more-NotUnset :
    (b : Bool) (m : Result ℕ) → NotUnset m → NotUnset (if b then (do k ← m; ok (suc k)) else ok 0)
more-NotUnset true (ok n) h = tt
more-NotUnset true (raised x) h = h
more-NotUnset false m h = tt

spaces_within-NotUnset : (n : ℕ) (cont : Text) → NotUnset (spaces_within n cont)
unfolding spaces_within
spaces_within-NotUnset zero cont = tt
spaces_within-NotUnset (suc n) [] = λ e. cc
spaces_within-NotUnset (suc n) (c ∷ cont) =
    more-NotUnset (c == b' ') (spaces_within n cont) (spaces_within-NotUnset n cont)

entry-Ready :
    (m : Result ℕ) (f : ℕ → KernelEntry) (d : KernelDoc)
    → NotUnset m
    → ((n : ℕ) → IsBegun (f n))
    → Ready (do e ← (do n ← m; ok (f n)); ok (record d { entry = e }))
entry-Ready (ok n) f d h k = Begun-IsReady d.state (f n) (k n)
entry-Ready (raised x) f d h k = h

special_text-Ready :
    (o : Option Text) (ln : ℕ) (line : Text) (d : KernelDoc)
    → IsBegun d.entry
    → Ready (special_text o ln line d)
unfolding add_special emit_msg add_text
special_text-Ready (some cont) ln line d h =
    entry-Ready (spaces_within (known_space d.entry.leading_space cont) cont) _ d
      (spaces_within-NotUnset _ cont) (λ n. h)
special_text-Ready none ln line d h = Begun-IsReady d.state _ h

pub special_line-Ready :
    (o : Option Match) (ln : ℕ) (line : Text) (d : KernelDoc)
    → IsBegun d.entry
    → Ready (special_line o ln line d)
unfolding begin_section
special_line-Ready (some m) ln line d h =
    dump-Ready (λ d'. goto State.body (with_entry (begin_section ln section_default) d')) d h
      (λ e he x. cc)
special_line-Ready none ln line d h =
    section_end_or-Ready _ ln line d h (special_text-Ready (content_of line) ln line d h)

docblock_text-Ready :
    (o : Option Text) (d : KernelDoc) → IsBegun d.entry → Ready (ok (docblock_text o d))
unfolding add_text
docblock_text-Ready (some w) d h = Begun-IsReady d.state _ h
docblock_text-Ready none d h = Begun-IsReady d.state _ h

pub docblock_line-Ready :
    (o : Option Match) (ln : ℕ) (line source : Text) (d : KernelDoc)
    → IsBegun d.entry
    → Ready (docblock_line o ln line source d)
unfolding output_docblock reset_state
docblock_line-Ready (some m) ln line source d h = dump-Ready _ d h (λ e he. tt)
docblock_line-Ready none ln line source d h = docblock_text-Ready (content_of line) d h

pub inline_line-Ready :
    (o : Option Match) (line : Text) (d : KernelDoc)
    → IsBegun d.entry
    → Ready (inline_line o line d)
inline_line-Ready (some m) line d h = dump-Ready (goto State.proto) d h (λ e he. he)
inline_line-Ready none line d h = docblock_text-Ready (content_of line) d h
