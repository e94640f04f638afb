-- ===== src/KdocParser/Munge.antt =====
-- `syscall_munge` and `tracepoint_munge`: a macro's prototype as that of the function it defines.
pub mod Commas
use pi_ghost.Base.{
  ℕ, suc, ◌+◌, ◌==◌, Bool, true, false, not, ◌||◌, Option, none, some, List, [], ◌∷◌, ◌++◌, String,
  Text, codes, if◌then◌else◌,
}
use pi_ghost.Regex.{Rx, Match, one, seq, star, lazy, group, lit, plus, row}
use pi_ghost.Regex.Class.{is_space, is_among, not_newline}
use pi_ghost.Regex.Search.{sub, re_search, group_of}
use pi_ghost.KdocParser.Strings.{contains, lstrip}
use pi_ghost.KdocParser.Entry.{KernelEntry}
use pi_ghost.KdocParser.Doc.{KernelDoc, emit, with_entry, is_blank}

-- `sub` of one character, with `count=1`.
unfoldable pub replace_first : ℕ → Text → Text → Text
replace_first c w [] = []
replace_first c w (d ∷ s) = let rest = replace_first c w s in if d == c then w ++ s else d ∷ rest

-- The loop over the commas, of which `odd` says whether the next one is odd-numbered.
unfoldable pub blank_commas : Bool → Text → Text
blank_commas odd [] = []
blank_commas odd (c ∷ s) =
    let other = blank_commas (not odd) s in
    let same = blank_commas odd s in
    if c == b',' then (if odd then b' ' else b',') ∷ other else c ∷ same

-- `[\r\n]+`, `SYSCALL_DEFINE.*\(` and `long\s+(sys_.*?),`
abbrev newlines : Rx
newlines = plus (one (is_among (codes "\r\n")))

abbrev text : String → Rx
text w = lit (codes w)

abbrev syscall_define : Rx
syscall_define = row (text "SYSCALL_DEFINE") (star (one not_newline) ∷ text "(" ∷ [])

abbrev long_sys : Rx
long_sys =
    row (text "long") (plus (one is_space) ∷ text "sys_" ∷ lazy (one not_newline) ∷ text "," ∷ [])

-- The list of arguments behind the name.
abbrev open_args : Option Match → Bool → Text → Text
open_args (some m) is_void proto = replace_first b',' (codes "(") proto
open_args none true proto = replace_first b')' (codes "(void)") proto
open_args none false proto = proto

unfoldable pub syscall_munge : Text → Text
unfolding sub re_search replace_first blank_commas is_among is_space
syscall_munge proto =
    let flat = sub newlines (λ m. codes " ") proto in
    let is_void = contains (codes "SYSCALL_DEFINE0") flat in
    let named = sub syscall_define (λ m. codes "long sys_") flat in
    let opened = open_args (re_search long_sys named) is_void named in
    if is_void then opened else blank_commas true opened

-- `(.*?),`
abbrev arg : String → Rx
arg n = seq (group (codes n) (lazy (one not_newline))) (text ",")

abbrev trace_event : Rx
trace_event = seq (text "TRACE_EVENT(") (arg "1")

abbrev define_single_event : Rx
define_single_event = seq (text "DEFINE_SINGLE_EVENT(") (arg "1")

abbrev define_event : Rx
define_event = row (text "DEFINE_EVENT(") (arg "1" ∷ arg "2" ∷ [])

abbrev tp_proto : Rx
tp_proto = row (text "TP_PROTO(") (group (codes "1") (lazy (one not_newline)) ∷ text ")" ∷ [])

-- The group of a match, or what was there before.
abbrev found_or : String → Text → Option Match → Text
found_or n old (some m) = group_of (codes n) m
found_or n old none = old

unfoldable pub tracepoint_munge : ℕ → Text → KernelDoc → KernelDoc × Text
unfolding re_search group_of is_space
tracepoint_munge ln proto d =
    let name1 = found_or "1" [] (re_search trace_event proto) in
    let name2 = found_or "1" name1 (re_search define_single_event proto) in
    let title = lstrip is_space (found_or "2" name2 (re_search define_event proto)) in
    let args = found_or "1" [] (re_search tp_proto proto) in
    if is_blank title || is_blank args
    then (emit ln (codes "Unrecognized tracepoint format:\n" ++ (proto ++ codes "\n")) d, proto)
    else (
      with_entry (λ e. record e { identifier = codes "trace_" ++ e.identifier }) d,
      codes "static inline void trace_" ++ (title ++ (codes "(" ++ (args ++ codes ")"))),
    )
