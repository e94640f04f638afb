-- ===== src/Xforms.antt =====
-- `CTransforms` of docs/kerneldoc-src/tools/lib/python/kdoc/xforms_lists.py: its tables, and `apply`.
pub mod Kept
use pi_ghost.Base.{Bool, List, [], ◌∷◌, String, Text, codes, Option, none, some}
use pi_ghost.Regex.{Rx, end, one, seq, alt, star, group, lit, opt, row}
use pi_ghost.Regex.Class.{not_newline}
use pi_ghost.Regex.Search.{sub}
use pi_ghost.CLex.Token.{CToken}
use pi_ghost.CLex.Tokenizer.{tokenize}
use pi_ghost.CLex.Render.{render}
use pi_ghost.CLex.Raised.{Result, ok, ◌>>=◌}
use pi_ghost.CLex.Match.{CMatch, cmatch, sub_tokens, sub_text}

-- A pair of the tables: a `CMatch` or a `KernRe`, and what replaces it.
pub data Transform : Type 0 where
  by_match : CMatch → Text → Transform
  by_regex : Rx → Text → Transform

abbrev word : String → Rx
word w = lit (codes w)

-- `CMatch(…)` with the default delimiter.
abbrev macro_rx : Rx → String → Transform
macro_rx x w = by_match (cmatch x (codes "(")) (codes w)

abbrev macro : String → String → Transform
macro x = macro_rx (word x)

abbrev regex : Rx → String → Transform
regex x w = by_regex x (codes w)

-- Structs and unions.
unfoldable pub struct_xforms : List Transform
struct_xforms =
    macro "__attribute__" ""
    ∷ macro "__aligned" ""
    ∷ macro "__counted_by" ""
    ∷ macro_rx (seq (word "__counted_by_") (group (codes "1") (alt (word "le") (word "be")))) ""
    ∷ macro "__counted_by_ptr" ""
    ∷ macro "__guarded_by" ""
    ∷ macro "__pt_guarded_by" ""
    ∷ macro "__packed" ""
    ∷ macro "CRYPTO_MINALIGN_ATTR" ""
    ∷ macro "__private" ""
    ∷ macro "__rcu" ""
    ∷ macro "____cacheline_aligned_in_smp" ""
    ∷ macro "____cacheline_aligned" ""
    ∷ macro_rx (seq (word "__cacheline_group_") (alt (word "begin") (word "end"))) ""
    ∷ macro "__ETHTOOL_DECLARE_LINK_MODE_MASK" "DECLARE_BITMAP(\\1, __ETHTOOL_LINK_MODE_MASK_NBITS)"
    ∷ macro "DECLARE_PHY_INTERFACE_MASK" "DECLARE_BITMAP(\\1, PHY_INTERFACE_MODE_MAX)"
    ∷ macro "DECLARE_BITMAP" "unsigned long \\1[BITS_TO_LONGS(\\2)]"
    ∷ macro "DECLARE_HASHTABLE" "unsigned long \\1[1 << ((\\2) - 1)]"
    ∷ macro "DECLARE_KFIFO" "\\2 *\\1"
    ∷ macro "DECLARE_KFIFO_PTR" "\\2 *\\1"
    ∷ macro_rx (seq (opt (word "__")) (word "DECLARE_FLEX_ARRAY")) "\\1 \\2[]"
    ∷ macro "DEFINE_DMA_UNMAP_ADDR" "dma_addr_t \\1"
    ∷ macro "DEFINE_DMA_UNMAP_LEN" "__u32 \\1"
    ∷ macro "VIRTIO_DECLARE_FEATURES" "union { u64 \\1; u64 \\1_array[VIRTIO_FEATURES_U64S]; }"
    ∷ macro "__SYSFS_FUNCTION_ALTERNATIVE" "union { \\1+ }"
    ∷ macro "__attribute__" ""
    ∷ macro "struct_group" "struct { \\2+ };"
    ∷ macro "struct_group_attr" "struct { \\3+ };"
    ∷ macro "struct_group_tagged" "struct { \\3+ };"
    ∷ macro "__struct_group" "struct { \\4+ };"
    ∷ []

-- Function prototypes.
unfoldable pub function_xforms : List Transform
function_xforms =
    macro "static" ""
    ∷ macro "extern" ""
    ∷ macro "asmlinkage" ""
    ∷ macro "inline" ""
    ∷ macro "__inline__" ""
    ∷ macro "__inline" ""
    ∷ macro "__always_inline" ""
    ∷ macro "noinline" ""
    ∷ macro "__FORTIFY_INLINE" ""
    ∷ macro "__init" ""
    ∷ macro "__init_or_module" ""
    ∷ macro "__exit" ""
    ∷ macro "__deprecated" ""
    ∷ macro "__flatten" ""
    ∷ macro "__meminit" ""
    ∷ macro "__must_check" ""
    ∷ macro "__weak" ""
    ∷ macro "__sched" ""
    ∷ macro "__always_unused" ""
    ∷ macro "__maybe_unused" ""
    ∷ macro "__printf" ""
    ∷ macro_rx (row (word "__") (opt (word "re") ∷ word "alloc_size" ∷ [])) ""
    ∷ macro "__diagnose_as" ""
    ∷ macro "DECL_BUCKET_PARAMS" "\\1, \\2"
    ∷ macro "__cond_acquires" ""
    ∷ macro "__cond_releases" ""
    ∷ macro "__acquires" ""
    ∷ macro "__releases" ""
    ∷ macro "__must_hold" ""
    ∷ macro "__must_not_hold" ""
    ∷ macro "__must_hold_shared" ""
    ∷ macro "__cond_acquires_shared" ""
    ∷ macro "__acquires_shared" ""
    ∷ macro "__releases_shared" ""
    ∷ macro "__no_context_analysis" ""
    ∷ macro "__attribute_const__" ""
    ∷ macro "__attribute__" ""
    ∷ macro "STATIC_IFN_KUNIT" ""
    ∷ macro "INLINE_IFN_KUNIT" ""
    ∷ regex (word "_noprof") ""
    ∷ []

-- Variable prototypes.
unfoldable pub var_xforms : List Transform
var_xforms =
    macro "__read_mostly" ""
    ∷ macro "__ro_after_init" ""
    ∷ macro "__guarded_by" ""
    ∷ macro "__pt_guarded_by" ""
    ∷ macro "LIST_HEAD" "struct list_head \\1"
    ∷ macro "DECLARE_PER_CPU" "\\1 \\2[PER_CPU]; }"
    ∷ regex (row (word "//") (star (one not_newline) ∷ end ∷ [])) ""
    ∷ regex (row (word "/*") (star (one not_newline) ∷ word "*/" ∷ [])) ""
    ∷ regex (seq (word ";") end) ""
    ∷ []

-- The source between two transforms: a text, or tokens.
pub data Source : Type 0 where
  as_text : Text → Source
  as_tokens : List CToken → Source

-- `str(source)`
unfoldable pub str_of : Source → Text
unfolding render
str_of (as_text w) = w
str_of (as_tokens ts) = render ts

-- `search.sub(subst, source)`, on the text of the source for a regular expression. None of their
-- replacements refers to a group.
unfoldable pub transform : Transform → Source → Result Source
unfolding sub sub_tokens sub_text str_of
transform (by_regex x w) s = ok (as_text (sub x (λ m. w) (str_of s)))
transform (by_match c w) (as_text v) = do u ← sub_text c w v 0; ok (as_text u)
transform (by_match c w) (as_tokens ts) = do us ← sub_tokens c w ts 0; ok (as_tokens us)

unfoldable pub transforms : List Transform → Source → Result Source
unfolding transform
transforms [] s = ok s
transforms (x ∷ xs) s = do s' ← transform x s; transforms xs s'

-- The keys of `xforms`.
pub data XformsType : Type 0 where
  struct func var other : XformsType

unfoldable pub xforms : XformsType → Option (List Transform)
unfolding struct_xforms function_xforms var_xforms
xforms struct = some struct_xforms
xforms func = some function_xforms
xforms var = some var_xforms
xforms other = none

-- `apply`, on a text.
unfoldable pub apply : XformsType → Text → Result Text
unfolding xforms transforms tokenize str_of
apply k source = elim (xforms k) [
  | none ↦ ok source
  | some xs ↦ do s ← transforms xs (as_tokens (tokenize source)); ok (str_of s)
]
