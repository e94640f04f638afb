-- ===== src/KdocParser/Sections/Begun.antt =====
-- In a comment a section has always begun, so it can be dumped.
use pi_ghost.Base.{
  ℕ, ◌≡◌, refl, ap, sym, ◌∙◌, ◌≢◌, true, ◌&&◌, Option, none, some, [], ◌∷◌, Text, text_eq,
  Bool-cases, Option-cases, inl, inr,
}
use pi_ghost.CLex.Raised.{Result, ok, raised}
use pi_ghost.Regex.Search.{match_at, re_search}
use pi_ghost.KdocParser.Patterns.{doc_sect, doc_end}
use pi_ghost.KdocParser.Entry.{
  KernelEntry, dump_section, dump_titled, section_default, no_texts, restart, store, begin_section,
  add_text, emit_msg,
}
use pi_ghost.KdocParser.Doc.{KernelDoc}
use pi_ghost.Regex.{Match}
use pi_ghost.KdocParser.Sections.{
  new_section, comment_end, note_ending, suspicious_rx, returned_or, decl_text, body_text,
  is_new_section, is_comment_end, section_end_or, process_body, process_decl, content_of,
}

abbrev pub IsBegun : KernelEntry → Type 0
IsBegun e = e.section ≢ none

-- A handler returned, and a section has begun.
abbrev pub Begun : Result KernelDoc → Type 0
Begun (ok d) = IsBegun d.entry
Begun (raised e) = ⊥

pub dump_section-Begun :
    (e : KernelEntry) → IsBegun e → (e' : KernelEntry) × (dump_section true e ≡ ok e') × IsBegun e'
unfolding dump_section dump_titled restart
dump_section-Begun e h = elim (Option-cases e.section) [
  | inl n ↦ absurd (h n)
  | inr (title, s) ↦ elim (Bool-cases (text_eq title section_default && no_texts e.texts)) [
    | inl c ↦ (e, ap (λ s. dump_titled s true e) s ∙ rw c refl, h)
    | inr c ↦ (restart true (store title e), ap (λ s. dump_titled s true e) s ∙ rw c refl, λ x. cc)
  ]
]

-- The same of a helper that may have left the line to others.
abbrev pub BegunOrLeft : Result (Option KernelDoc) → Type 0
BegunOrLeft (ok none) = Unit
BegunOrLeft (ok (some d)) = IsBegun d.entry
BegunOrLeft (raised x) = ⊥

pub new_section-Begun :
    (o : Option Match) (ln : ℕ) (d : KernelDoc) → IsBegun d.entry → BegunOrLeft (new_section o ln d)
unfolding new_section begin_section add_text
new_section-Begun none ln d h = tt
new_section-Begun (some m) ln d h =
    let (e, eq, he) = dump_section-Begun d.entry h in rw eq (λ x. cc)

note_ending-section :
    (o : Option Match) (ln : ℕ) (line : Text) (d : KernelDoc)
    → (note_ending o ln line d).entry.section ≡ d.entry.section
unfolding emit_msg
note_ending-section none ln line d = refl
note_ending-section (some m) ln line d = refl

pub comment_end-Begun :
    (o : Option Match) (ln : ℕ) (line : Text) (d : KernelDoc)
    → IsBegun d.entry
    → BegunOrLeft (comment_end o ln line d)
unfolding comment_end
comment_end-Begun none ln line d h = tt
comment_end-Begun (some m) ln line d h =
    let (e, eq, he) = dump_section-Begun d.entry h in
    rw eq (λ x. he (
      sym (note_ending-section (match_at suspicious_rx line) ln line (record d { entry = e })) ∙ x))

returned_or-Begun :
    (m : Result (Option KernelDoc)) (rest : Result KernelDoc)
    → BegunOrLeft m
    → Begun rest
    → Begun (returned_or m rest)
returned_or-Begun (raised x) rest h r = h
returned_or-Begun (ok (some d)) rest h r = h
returned_or-Begun (ok none) rest h r = r

pub section_end_or-Begun :
    (rest : Result KernelDoc) (ln : ℕ) (line : Text) (d : KernelDoc)
    → IsBegun d.entry
    → Begun rest
    → Begun (section_end_or rest ln line d)
unfolding section_end_or is_new_section is_comment_end
section_end_or-Begun rest ln line d h r =
    returned_or-Begun (is_new_section ln line d) _
      (new_section-Begun (re_search doc_sect line) ln d h)
      (returned_or-Begun (is_comment_end ln line d) rest
        (comment_end-Begun (re_search doc_end line) ln line d h) r)

decl_text-section :
    (o : Option Text) (ln : ℕ) (line : Text) (d : KernelDoc)
    → (decl_text o ln line d).entry.section ≡ d.entry.section
unfolding emit_msg
decl_text-section (some []) ln line d = refl
decl_text-section (some (c ∷ w)) ln line d = refl
decl_text-section none ln line d = refl

body_text-section :
    (o : Option Text) (ln : ℕ) (line : Text) (d : KernelDoc)
    → (body_text o ln line d).entry.section ≡ d.entry.section
unfolding add_text emit_msg
body_text-section (some w) ln line d = refl
body_text-section none ln line d = refl

-- Where a section has begun, a line of the declaration part or of the body of a comment never
-- raises, and behind it a section has begun.
pub process_decl-Begun :
    (ln : ℕ) (line : Text) (d : KernelDoc)
    → IsBegun d.entry
    → Begun (process_decl ln line d) × Begun (process_body ln line d)
unfolding process_decl process_body
process_decl-Begun ln line d h = (
  section_end_or-Begun _ ln line d h
      (λ x. h (sym (decl_text-section (content_of line) ln line d) ∙ x)),
  section_end_or-Begun _ ln line d h
      (λ x. h (sym (body_text-section (content_of line) ln line d) ∙ x)),
)
