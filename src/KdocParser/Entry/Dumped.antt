-- ===== src/KdocParser/Entry/Dumped.antt =====
-- What `dump_section` keeps.
use pi_ghost.Base.{
  ◌≡◌, ap, ◌∙◌, refl, true, false, ◌&&◌, Option, none, some, [], ◌∷◌, ◌++◌, if◌then◌else◌, Text,
  text_eq, codes, dict_get, get-set_any,
}
use pi_ghost.CLex.Raised.{ok}
use pi_ghost.Regex.Search.{match_at, group_of}
use pi_ghost.Regex.{Match}
use pi_ghost.KdocParser.Patterns.{type_param}
use pi_ghost.KdocParser.Entry.{
  KernelEntry, contents, store_section, store, dump_section, dump_titled, section_default, no_texts,
  restart, store_param, emit_msg,
}

-- A text behind what a section has: a new paragraph, unless it has nothing.
pub merged : Option Text → Text → Text
merged (some (c ∷ old)) new = (c ∷ old) ++ (codes "\n" ++ new)
merged _ new = new

-- Something to dump: a section other than the default one, or a text.
abbrev pub HasContents : Text → KernelEntry → Type 0
HasContents title e = (text_eq title section_default && no_texts e.texts) ≡ false

title_store :
    (title k : Text) (e : KernelEntry) (old : Option Text)
    → dict_get title e.sections ≡ old
    → dict_get k (store_section title e).sections
      ≡ (if text_eq k title then some (merged old (contents e)) else dict_get k e.sections)
unfolding store_section merged emit_msg
title_store title k e none h = rw (h, store_section) (get-set_any k title (contents e) e.sections)
title_store title k e (some []) h =
    rw (h, store_section) (get-set_any k title (contents e) e.sections)
title_store title k e (some (c ∷ old)) h =
    rw (h, store_section) (get-set_any k title ((c ∷ old) ++ (codes "\n" ++ contents e)) e.sections)

pub dumped :
    (title : Text) (e : KernelEntry)
    → e.section ≡ some title
    → HasContents title e
    → dump_section true e ≡ ok (restart true (store title e))
unfolding dump_section dump_titled
dumped title e h c = ap (λ s. dump_titled s true e) h ∙ rw c refl

-- `dump_section` of a section that is no parameter and has something to dump ends the section and
-- empties the list of texts. The title has the joined texts then, behind a blank line and what it
-- had, if that was not empty; every other section is as it was.
pub dump_section-sections :
    (title k : Text) (e : KernelEntry)
    → e.section ≡ some title
    → match_at type_param title ≡ none
    → HasContents title e
    → (e' : KernelEntry) × (dump_section true e ≡ ok e')
      × (e'.texts ≡ [])
      × (e'.section ≡ some section_default)
      × (dict_get k e'.sections ≡ (
          if text_eq k title
          then some (merged (dict_get title e.sections) (contents e))
          else dict_get k e.sections))
unfolding dump_section store restart
dump_section-sections title k e h m c = (
  restart true (store title e),
  dumped title e h c,
  refl,
  refl,
  rw (m, store) (title_store title k e (dict_get title e.sections) refl),
)

-- `dump_section` of a parameter stores the joined texts as its description, in place of what it
-- had; no other parameter's description and no section changes.
pub dump_section-param :
    (title name : Text) (e : KernelEntry) (m : Match)
    → e.section ≡ some title
    → match_at type_param title ≡ some m
    → HasContents title e
    → (e' : KernelEntry) × (dump_section true e ≡ ok e')
      × (e'.texts ≡ [])
      × (e'.sections ≡ e.sections)
      × (dict_get name e'.parameterdescs ≡ (
          if text_eq name (group_of (codes "1") m)
          then some (contents e)
          else dict_get name e.parameterdescs))
unfolding dump_section store store_param restart
dump_section-param title name e m h p c = (
  restart true (store title e),
  dumped title e h c,
  refl,
  rw (p, store) refl,
  rw (p, store) (get-set_any name (group_of (codes "1") m) (contents e) e.parameterdescs),
)
