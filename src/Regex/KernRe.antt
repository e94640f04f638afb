-- ===== src/Regex/KernRe.antt =====
-- `KernRe` of docs/kerneldoc-src/tools/lib/python/kdoc/kdoc_re.py as an object: the pattern that it
-- compiles or takes from `re_cache`. What `re.compile` returns is the text with the flags.
pub mod Cached
use pi_ghost.Base.{
  ℕ, ◌==◌, Bool, true, false, ◌||◌, Option, none, some, ◌++◌, if◌then◌else◌, Text, Dict, dict_get,
  dict_set,
}

pub record Compiled : Type 0 where
  pub pattern : Text
  pub ignore_case : Bool

pub record KernRe : Type 0 where
  pub regex : Compiled
  pub cache : Bool

abbrev pub compiled_by : Option Compiled → Text → Bool → Compiled
compiled_by (some r) w flags = r
compiled_by none w flags = record { pattern = w; ignore_case = flags }

abbrev pub cached_by : Option Compiled → Bool → Text → Bool → Dict Compiled → Dict Compiled
cached_by none true w flags re_cache =
    dict_set w (record { pattern = w; ignore_case = flags }) re_cache
cached_by _ _ w flags re_cache = re_cache

-- `_add_regex`, with `flags` as the one flag that the tool passes; and `__init__`.
unfoldable pub add_regex : Text → Bool → Bool → Dict Compiled → Compiled × Dict Compiled
add_regex w use_cache flags re_cache = (
  compiled_by (dict_get w re_cache) w flags,
  cached_by (dict_get w re_cache) use_cache w flags re_cache,
)

unfoldable pub kern_re : Text → Bool → Bool → Dict Compiled → KernRe × Dict Compiled
unfolding add_regex
kern_re w use_cache flags re_cache =
    let (r, re_cache') = add_regex w use_cache flags re_cache in
    (record { regex = r; cache = use_cache }, re_cache')

-- `__add__`
unfoldable pub add_re : KernRe → KernRe → Dict Compiled → KernRe × Dict Compiled
unfolding kern_re
add_re x y =
    kern_re (x.regex.pattern ++ y.regex.pattern) (x.cache || y.cache)
      (x.regex.ignore_case || y.regex.ignore_case)
