-- ===== src/KdocParser/Special.antt =====
-- `process_special`: a section that a blank line ends, without the space in front of its lines.
pub mod Trimmed
use pi_ghost.Base.{
  ℕ, zero, suc, Option, none, some, [], ◌∷◌, ◌==◌, if◌then◌else◌, Text, codes, drop,
}
use pi_ghost.CLex.Raised.{Result, ok, raised, ◌>>=◌, index_error}
use pi_ghost.Regex.{Match, Rx, end, one, star, lit, row}
use pi_ghost.Regex.Class.{is_space}
use pi_ghost.Regex.Search.{match_at}
use pi_ghost.KdocParser.Entry.{
  KernelEntry, add_text, emit_msg, dump_section, begin_section, section_default,
}
use pi_ghost.KdocParser.Doc.{State, KernelDoc, goto, with_entry, dump, bad_line}
use pi_ghost.KdocParser.Sections.{section_end_or, content_of}

-- `for i in range(0, n): if cont[i] != " "`: the index of the first character of `cont` that is
-- not a space, or `n` if there is none before it.
unfoldable pub spaces_within : ℕ → Text → Result ℕ
spaces_within zero cont = ok 0
spaces_within (suc n) [] = raised index_error
spaces_within (suc n) (c ∷ cont) =
    let more = (do k ← spaces_within n cont; ok (suc k)) in if c == b' ' then more else ok 0

-- `re.match(r'^(\s+)', cont)`: the length of the group, or 0.
abbrev pub space_count : Text → ℕ
space_count [] = 0
space_count (c ∷ w) = if is_space c then suc (space_count w) else 0

abbrev pub known_space : Option ℕ → Text → ℕ
known_space (some n) cont = n
known_space none cont = space_count cont

unfoldable pub add_special : Text → KernelEntry → Result KernelEntry
unfolding spaces_within add_text is_space
add_special cont e = do
  n ← spaces_within (known_space e.leading_space cont) cont
  ok (add_text (drop n cont) (record e { leading_space = some n }))

-- `\s*\*\s*$`
abbrev pub blank_rx : Rx
blank_rx = row (star (one is_space)) (lit (codes "*") ∷ star (one is_space) ∷ end ∷ [])

abbrev pub special_text : Option Text → ℕ → Text → KernelDoc → Result KernelDoc
special_text (some cont) ln line d = do e ← add_special cont d.entry; ok (record d { entry = e })
special_text none ln line d = ok (bad_line ln line d)

abbrev pub special_line : Option Match → ℕ → Text → KernelDoc → Result KernelDoc
special_line (some m) ln line d = do
  d' ← dump d
  ok (goto State.body (with_entry (begin_section ln section_default) d'))
special_line none ln line d = section_end_or (special_text (content_of line) ln line d) ln line d

unfoldable pub process_special : ℕ → Text → KernelDoc → Result KernelDoc
unfolding match_at dump_section begin_section section_end_or content_of add_special emit_msg
    is_space
process_special ln line d = special_line (match_at blank_rx line) ln line d
