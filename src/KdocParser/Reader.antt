-- ===== src/KdocParser/Reader.antt =====
-- `parse_kdoc`: the lines of a file, and the state that each is handed to.
pub mod Ready
pub mod Named
pub mod Handled
pub mod Declared
pub mod Safe
use pi_ghost.Base.{
  ℕ, zero, suc, ◌-◌, ◌==◌, Bool, true, false, not, ◌||◌, ◌&&◌, Option, none, some, List, [], ◌∷◌,
  ◌++◌, Text, codes, if◌then◌else◌,
}
use pi_ghost.CLex.Raised.{Result, ok, raised, ◌>>=◌}
use pi_ghost.KdocParser.Strings.{strip, rstrip}
use pi_ghost.KdocParser.Doc.{
  State, KernelDoc, KdocItem, new_doc, is_blank, process_normal, emit_unused_warnings,
}
use pi_ghost.KdocParser.Names.{process_name}
use pi_ghost.KdocParser.Sections.{process_decl, process_body, process_docblock, process_inline_text}
use pi_ghost.KdocParser.Special.{process_special}
use pi_ghost.KdocParser.Prototype.{Dumpers, process_proto, process_inline_name}
use pi_ghost.KdocParser.Export.{process_export}

-- `config.wshort_desc`, and the argument `store_src`.
pub record Config : Type 0 where
  pub wshort_desc : Bool
  pub store_src : Bool

abbrev blanks : ℕ → Text → Text
blanks zero w = w
blanks (suc n) w = b' ' ∷ blanks n w

abbrev next_column : ℕ → ℕ
next_column (suc (suc n)) = suc n
next_column _ = 8

-- `line.expandtabs()`, where `left` columns are left to the next tab stop.
unfoldable pub expandtabs : ℕ → Text → Text
expandtabs left [] = []
expandtabs left (c ∷ s) =
    let fresh = expandtabs 8 s in
    let next = expandtabs (next_column left) s in
    if c == b'\t'
    then blanks left fresh
    else if c == b'\n' || c == b'\r'
    then c ∷ fresh
    else c ∷ next

unfoldable pub clean_line : Text → Text
unfolding expandtabs
clean_line line = strip (λ c. c == b'\n') (expandtabs 8 line)

-- `line.endswith("\\")`
unfoldable pub is_continued : Text → Bool
is_continued [] = false
is_continued (c ∷ []) = c == b'\\'
is_continued (c ∷ (d ∷ s)) = is_continued (d ∷ s)

-- The variables of the loop.
pub record Reader : Type 0 where
  pub doc : KernelDoc
  pub prev : Text
  pub prev_ln : Option ℕ
  pub export_table : List Text
  pub source : Text

unfoldable pub new_reader : Reader
unfolding new_doc
new_reader = record { doc = new_doc; prev = []; prev_ln = none; export_table = []; source = [] }

abbrev pub is_normal : State → Bool
is_normal State.normal = true
is_normal _ = false

abbrev pub is_proto : State → Bool
is_proto State.proto = true
is_proto _ = false

-- `if not prev_ln: prev_ln = ln`, where 0 is none.
abbrev first_ln : Option ℕ → ℕ → Option ℕ
first_ln (some (suc n)) ln = some (suc n)
first_ln _ ln = some ln

abbrev pub ln_of : Option ℕ → ℕ → ℕ
ln_of (some n) ln = n
ln_of none ln = ln

-- The source with a line more, if `store_src` says to keep it.
abbrev pub source_with : Bool → State → Text → Text → Text
source_with true State.normal line source = []
source_with true st line source = source ++ (line ++ codes "\n")
source_with false st line source = source

module _ (cfg : Config) (dumpers : Dumpers) where
  -- `state_actions`
  unfoldable pub state_action : State → ℕ → Text → Text → KernelDoc → Result KernelDoc
  unfolding process_normal process_name process_body process_decl process_special
      process_inline_name process_inline_text process_proto process_docblock
  state_action State.normal ln line source d = ok (process_normal ln line d)
  state_action State.name ln line source d = ok (process_name cfg.wshort_desc ln line d)
  state_action State.body ln line source d = process_body ln line d
  state_action State.declaration ln line source d = process_decl ln line d
  state_action State.special_section ln line source d = process_special ln line d
  state_action State.inline_name ln line source d = process_inline_name dumpers ln line source d
  state_action State.inline_text ln line source d = process_inline_text line d
  state_action State.proto ln line source d = process_proto dumpers ln line source d
  state_action State.docblock ln line source d = process_docblock ln line source d

  -- A line goes to the state's handler.
  unfoldable pub hand : ℕ → Text → Reader → Result Reader
  unfolding state_action
  hand ln line r = do
    d ← state_action r.doc.state ln line r.source r.doc
    ok (record r {
      doc = d;
      source =
          if is_normal r.doc.state && not (is_normal d.state)
          then r.source ++ (line ++ codes "\n")
          else r.source;
    })

  abbrev pub export_or_hand : Option (List Text) → ℕ → Text → Reader → Result Reader
  export_or_hand (some table) ln line r = ok (record r { export_table = table })
  export_or_hand none ln line r = hand ln line r

  -- A line that is whole: in normal code it may export a symbol.
  unfoldable pub whole_line : ℕ → Text → Reader → Result Reader
  unfolding hand process_export
  whole_line ln line r =
      let r' : Reader = record r { source = source_with cfg.store_src r.doc.state line r.source } in
      if is_normal r.doc.state
      then export_or_hand (process_export r.export_table line) ln line r'
      else hand ln line r'

  -- A line of the file, which a prototype's continued lines are put in front of.
  unfoldable pub read_line : ℕ → Text → Reader → Result Reader
  unfolding clean_line is_continued whole_line
  read_line ln raw r =
      let line = clean_line raw in
      if is_proto r.doc.state
      then if is_continued line
        then ok (record r {
          prev = r.prev ++ rstrip (λ c. c == b'\\') line;
          prev_ln = first_ln r.prev_ln ln;
        })
        else if is_blank r.prev
        then whole_line ln line r
        else whole_line (ln_of r.prev_ln ln) (r.prev ++ line)
            (record r { prev = []; prev_ln = none })
      else whole_line ln line r

  unfoldable pub read_lines : ℕ → List Text → Reader → Result Reader
  unfolding read_line
  read_lines ln [] r = ok r
  read_lines ln (w ∷ ws) r = do r' ← read_line ln w r; read_lines (suc ln) ws r'

  -- `parse_kdoc` of a file that opens: the symbols and the items, and the messages that were logged.
  unfoldable pub parse_kdoc : List Text → Result (List Text × KernelDoc)
  unfolding read_lines new_reader emit_unused_warnings
  parse_kdoc lines = do
    r ← read_lines 0 lines new_reader
    ok (r.export_table, emit_unused_warnings r.doc)
