-- ===== src/KdocParser/Sections/Docblock.antt =====
-- A `DOC:` block, from its lines to its item.
use pi_ghost.Base.{
  ℕ, suc, ◌≡◌, refl, sym, ap, ◌∙◌, true, none, some, List, [], ◌∷◌, ◌++◌, Text, codes, append_assoc,
  append-nil,
}
use pi_ghost.CLex.Raised.{Result, ok, ◌>>=◌}
use pi_ghost.Regex.Search.{re_search}
use pi_ghost.KdocParser.Patterns.{doc_end}
use pi_ghost.KdocParser.Entry.{KernelEntry, add_text, store, restart}
use pi_ghost.KdocParser.Entry.Dumped.{HasContents, dumped}
use pi_ghost.KdocParser.Doc.{
  State, KernelDoc, KdocItem, item_of, output_declaration, reset_state, with_entry,
  emit_unused_warnings,
}
use pi_ghost.KdocParser.Sections.{
  process_docblock, output_docblock, content_of, docblock_line, docblock_text,
}

-- `process_docblock` on one line after another, with the source that `parse_kdoc` has for each.
pub read_block : ℕ → List (Text × Text) → KernelDoc → Result KernelDoc
read_block ln [] d = ok d
read_block ln ((line, source) ∷ ls) d = do
  d' ← process_docblock ln line source d
  read_block (suc ln) ls d'

-- The lines have no end of the comment, and the texts behind their asterisks are `ws`.
pub data IsText : List (Text × Text) → List Text → Type 0 where
  done : IsText [] []
  next :
      {w l s : Text} {ws : List Text} {ls : List (Text × Text)}
      → re_search doc_end l ≡ none
      → content_of l ≡ some w
      → IsText ls ws
      → IsText ((l, s) ∷ ls) (w ∷ ws)

pub with_texts : List Text → KernelDoc → KernelDoc
with_texts ws d = with_entry (λ e. record e { texts = e.texts ++ ws }) d

text_line :
    (ln : ℕ) (line source w : Text) (d : KernelDoc)
    → re_search doc_end line ≡ none
    → content_of line ≡ some w
    → process_docblock ln line source d ≡ ok (with_entry (add_text w) d)
unfolding process_docblock
text_line ln line source w d n c =
    ap (λ m. docblock_line m ln line source d) n ∙ ap (λ o. ok (docblock_text o d)) c

-- Each line of a `DOC:` block adds the text behind its asterisk to the block, in order, and changes
-- nothing else.
pub read_block-texts :
    {ls : List (Text × Text)} {ws : List Text} (ln : ℕ) (d : KernelDoc)
    → IsText ls ws
    → read_block ln ls d ≡ ok (with_texts ws d)
unfolding read_block with_texts add_text
read_block-texts ln d done =
    ap (λ ts. ok (record d { entry = record d.entry { texts = ts } }))
      (sym (append-nil d.entry.texts))
read_block-texts ln d (next {w} {l} {s} {ws} {ls} n c h) =
    ap (λ m. m >>= read_block (suc ln) ls) (text_line ln l s w d n c)
    ∙ read_block-texts (suc ln) (with_entry (add_text w) d) h
    ∙ ap (λ ts. ok (record d { entry = record d.entry { texts = ts } }))
        (append_assoc d.entry.texts (w ∷ []) ws)

-- What the end of a block leaves, where its section has begun and has something to dump: the state
-- is normal, one item is added, and the warnings of that item are logged too.
output_docblock-logged :
    (ln : ℕ) (title source : Text) (d : KernelDoc)
    → d.entry.section ≡ some title
    → HasContents title d.entry
    → (d' : KernelDoc) × (item : KdocItem) × (output_docblock ln source d ≡ ok d')
      × (d'.state ≡ State.normal)
      × (d'.entries ≡ d.entries ++ item ∷ [])
      × (d'.logged ≡ d.logged ++ item.warnings)
unfolding output_docblock output_declaration reset_state emit_unused_warnings restart item_of
output_docblock-logged ln title source d s h =
    let e : KernelEntry = restart true (store title d.entry) in
    let d1 : KernelDoc = record d { entry = e } in
    let item = item_of (codes "doc") e.identifier ((codes "source", source) ∷ []) e in
    (
      reset_state ln
          (output_declaration (codes "doc") e.identifier ((codes "source", source) ∷ []) d1),
      item,
      rw (dumped title d.entry s h) refl,
      refl,
      refl,
      refl,
    )
