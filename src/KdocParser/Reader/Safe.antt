-- ===== src/KdocParser/Reader/Safe.antt =====
-- `parse_kdoc` from its first line to its last.
use pi_ghost.Base.{
  ℕ, suc, ◌≡◌, ◌≢◌, refl, Bool, true, false, Option, none, some, List, [], ◌∷◌, ◌++◌, Text,
  if◌then◌else◌,
}
use pi_ghost.CLex.Raised.{Result, ok, raised, ◌>>=◌, unset_section}
use pi_ghost.Regex.Search.{re_search, match_at}
use pi_ghost.KdocParser.Doc.{State, new_doc, KernelDoc, process_normal, is_blank}
use pi_ghost.KdocParser.Names.{process_name}
use pi_ghost.KdocParser.Sections.Begun.{process_decl-Begun}
use pi_ghost.KdocParser.Reader.Ready.{IsReady, Ready, Begun-Ready, NotUnset}
use pi_ghost.KdocParser.Patterns.{doc_inline_end, doc_inline_sect, doc_inline_oneline}
use pi_ghost.KdocParser.Patterns.{doc_start, doc_block, doc_decl, doc_end}
use pi_ghost.KdocParser.Sections.{process_docblock, process_inline_text}
use pi_ghost.KdocParser.Special.{process_special, blank_rx}
use pi_ghost.KdocParser.Prototype.{Dumpers, process_proto, process_inline_name}
use pi_ghost.KdocParser.Export.{process_export}
use pi_ghost.KdocParser.Reader.{
  Config, Reader, state_action, is_normal, hand, export_or_hand, whole_line, read_line, read_lines,
  new_reader, parse_kdoc, source_with, clean_line, is_proto, is_continued, ln_of,
}
use pi_ghost.KdocParser.Reader.Named.{begin_comment-IsReady, name_line-IsReady}
use pi_ghost.KdocParser.Reader.Handled.{special_line-Ready, docblock_line-Ready, inline_line-Ready}
use pi_ghost.KdocParser.Reader.Declared.{IsSafe, proto_line-Ready, inline_begin-Ready}

abbrev pub IsReadyReader : Result Reader → Type 0
IsReadyReader (ok r) = IsReady r.doc.state r.doc.entry
IsReadyReader (raised x) = x ≢ unset_section

module _ (cfg : Config) (ds : Dumpers) (safe : IsSafe ds) where
  state_action-Ready :
      (st : State) (ln : ℕ) (line source : Text) (d : KernelDoc)
      → d.state ≡ st
      → IsReady st d.entry
      → Ready (state_action cfg ds st ln line source d)
  unfolding state_action process_normal process_name process_special process_inline_name
      process_inline_text process_proto process_docblock
  state_action-Ready State.normal ln line source d e h =
      begin_comment-IsReady (match_at doc_start line) ln d e
  state_action-Ready State.name ln line source d e h =
      name_line-IsReady (re_search doc_block line) (re_search doc_decl line) cfg.wshort_desc ln line
        d e
  state_action-Ready State.body ln line source d e h =
      Begun-Ready _ (process_decl-Begun ln line d h).1
  state_action-Ready State.declaration ln line source d e h =
      Begun-Ready _ (process_decl-Begun ln line d h).0
  state_action-Ready State.special_section ln line source d e h =
      special_line-Ready (match_at blank_rx line) ln line d h
  state_action-Ready State.inline_name ln line source d e h =
      inline_begin-Ready ds safe (re_search doc_inline_sect line) ln line source d h
  state_action-Ready State.inline_text ln line source d e h =
      inline_line-Ready (re_search doc_inline_end line) line d h
  state_action-Ready State.proto ln line source d e h =
      proto_line-Ready ds safe (re_search doc_inline_oneline line) ln line source d h
  state_action-Ready State.docblock ln line source d e h =
      docblock_line-Ready (re_search doc_end line) ln line source d h

  handed :
      (m : Result KernelDoc) (r : Reader) (f : KernelDoc → Text)
      → Ready m
      → IsReadyReader (do d ← m; ok (record r { doc = d; source = f d }))
  handed (ok d) r f h = h
  handed (raised x) r f h = h

  hand-Ready :
      (ln : ℕ) (line : Text) (r : Reader)
      → IsReady r.doc.state r.doc.entry
      → IsReadyReader (hand cfg ds ln line r)
  unfolding hand
  hand-Ready ln line r h =
      handed (state_action cfg ds r.doc.state ln line r.source r.doc) r _
        (state_action-Ready r.doc.state ln line r.source r.doc refl h)

  export-Ready :
      (o : Option (List Text)) (ln : ℕ) (line : Text) (r : Reader)
      → IsReady r.doc.state r.doc.entry
      → IsReadyReader (export_or_hand cfg ds o ln line r)
  export-Ready (some table) ln line r h = h
  export-Ready none ln line r h = hand-Ready ln line r h

  if-IsReady :
      (b : Bool) (m n : Result Reader)
      → IsReadyReader m
      → IsReadyReader n
      → IsReadyReader (if b then m else n)
  if-IsReady true m n hm hn = hm
  if-IsReady false m n hm hn = hn

  whole_line-Ready :
      (ln : ℕ) (line : Text) (r : Reader)
      → IsReady r.doc.state r.doc.entry
      → IsReadyReader (whole_line cfg ds ln line r)
  unfolding whole_line
  whole_line-Ready ln line r h =
      let r' : Reader = record r { source = source_with cfg.store_src r.doc.state line r.source } in
      if-IsReady (is_normal r.doc.state) _ _
        (export-Ready (process_export r.export_table line) ln line r' h) (hand-Ready ln line r' h)

  read_line-Ready :
      (ln : ℕ) (raw : Text) (r : Reader)
      → IsReady r.doc.state r.doc.entry
      → IsReadyReader (read_line cfg ds ln raw r)
  unfolding read_line
  read_line-Ready ln raw r h =
      if-IsReady (is_proto r.doc.state) _ _
        (if-IsReady (is_continued (clean_line raw)) _ _ h (
          if-IsReady (is_blank r.prev) _ _ (whole_line-Ready ln (clean_line raw) r h) (
            whole_line-Ready (ln_of r.prev_ln ln) (r.prev ++ clean_line raw)
              (record r { prev = []; prev_ln = none }) h)))
        (whole_line-Ready ln (clean_line raw) r h)

  pub then-Ready :
      (m : Result Reader) (f : Reader → Result Reader)
      → IsReadyReader m
      → ((r : Reader) → IsReady r.doc.state r.doc.entry → IsReadyReader (f r))
      → IsReadyReader (do r ← m; f r)
  then-Ready (ok r) f h k = k r h
  then-Ready (raised x) f h k = h

  -- From a reader that is in normal code, or that has begun a section, any lines are read without
  -- the exception, and the reader is then in normal code or has begun a section.
  pub read_lines-Ready :
      (ln : ℕ) (ws : List Text) (r : Reader)
      → IsReady r.doc.state r.doc.entry
      → IsReadyReader (read_lines cfg ds ln ws r)
  unfolding read_lines
  read_lines-Ready ln [] r h = h
  read_lines-Ready ln (w ∷ ws) r h =
      then-Ready (read_line cfg ds ln w r) _ (read_line-Ready ln w r h)
        (λ r' h'. read_lines-Ready (suc ln) ws r' h')

  finished :
      (m : Result Reader) (f : Reader → List Text × KernelDoc)
      → IsReadyReader m
      → NotUnset (do r ← m; ok (f r))
  finished (ok r) f h = tt
  finished (raised x) f h = h

  -- `parse_kdoc` never reads the title of a section that has not begun, whatever the lines of the
  -- file are, if the parsers of whole declarations that are its argument do not.
  parse_kdoc-NotUnset : (lines : List Text) → NotUnset (parse_kdoc cfg ds lines)
  unfolding parse_kdoc new_reader new_doc
  parse_kdoc-NotUnset lines =
      finished (read_lines cfg ds 0 lines new_reader) _ (read_lines-Ready 0 lines new_reader tt)
