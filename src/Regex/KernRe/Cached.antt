-- ===== src/Regex/KernRe/Cached.antt =====
-- `re_cache`.
use pi_ghost.Base.{
  ◌≡◌, refl, sym, ap, ◌∙◌, Bool, true, false, Option, none, some, inl, inr, ◌++◌, ◌||◌, Text, Dict,
  dict_get, dict_set, get-set_any, get-set, text_eq, text_eq_iff, Bool-cases, if◌then◌else◌,
}
use pi_ghost.Regex.KernRe.{Compiled, KernRe, compiled_by, cached_by, add_regex, kern_re, add_re}

-- Each pattern of the cache stands under its own text.
abbrev pub IsCache : Dict Compiled → Type 0
IsCache re_cache = (w : Text) (r : Compiled) → dict_get w re_cache ≡ some r → r.pattern ≡ w

some_injective : {r q : Compiled} → some r ≡ some q → r ≡ q
some_injective e = cc

compiled-pattern :
    (o : Option Compiled) (w : Text) (flags : Bool)
    → ((r : Compiled) → o ≡ some r → r.pattern ≡ w)
    → (compiled_by o w flags).pattern ≡ w
compiled-pattern (some r) w flags h = h r refl
compiled-pattern none w flags h = refl

set-IsCache :
    (w : Text) (flags : Bool) (re_cache : Dict Compiled)
    → IsCache re_cache
    → IsCache (dict_set w (record { pattern = w; ignore_case = flags }) re_cache)
set-IsCache w flags re_cache h v r e = elim (Bool-cases (text_eq v w)) [
  | inl t ↦
      sym (ap Compiled.pattern (some_injective (rw t at lookup))) ∙ sym ((text_eq_iff v w).0 t)
  | inr f ↦ h v r (rw f at lookup)
]
  where
    lookup :
        (if text_eq v w
          then some (record { pattern = w; ignore_case = flags })
          else dict_get v re_cache)
        ≡ some r
    lookup = sym (get-set_any v w (record { pattern = w; ignore_case = flags }) re_cache) ∙ e

cached-IsCache :
    (o : Option Compiled) (use_cache : Bool) (w : Text) (flags : Bool) (re_cache : Dict Compiled)
    → IsCache re_cache
    → IsCache (cached_by o use_cache w flags re_cache)
cached-IsCache none true w flags re_cache h = set-IsCache w flags re_cache h
cached-IsCache none false w flags re_cache h = h
cached-IsCache (some r) use_cache w flags re_cache h = h

-- `+` of two expressions gives one whose pattern is the text of the first followed by that of the
-- second, taken from the cache or not, and the cache holds each pattern under its own text still.
pub add_re-pattern :
    (x y : KernRe) (re_cache : Dict Compiled)
    → IsCache re_cache
    → ((add_re x y re_cache).0.regex.pattern ≡ x.regex.pattern ++ y.regex.pattern)
      × IsCache (add_re x y re_cache).1
unfolding add_re kern_re add_regex
add_re-pattern x y re_cache h =
    let w = x.regex.pattern ++ y.regex.pattern in
    let flags = x.regex.ignore_case || y.regex.ignore_case in
    (
      compiled-pattern (dict_get w re_cache) w flags (h w),
      cached-IsCache (dict_get w re_cache) (x.cache || y.cache) w flags re_cache h,
    )

-- An expression compiled with one flag and kept in the cache, which did not have its text, is given
-- back with that flag, whatever flag the later call asks for.
pub kern_re-flags :
    (w : Text) (use_cache first second : Bool) (re_cache : Dict Compiled)
    → dict_get w re_cache ≡ none
    → (kern_re w use_cache second (kern_re w true first re_cache).1).0.regex.ignore_case ≡ first
unfolding kern_re add_regex
kern_re-flags w use_cache first second re_cache h =
    ap (λ o. (compiled_by (dict_get w (cached_by o true w first re_cache)) w second).ignore_case) h
    ∙ ap (λ o. (compiled_by o w second).ignore_case)
        (get-set w (record { pattern = w; ignore_case = first }) re_cache)
