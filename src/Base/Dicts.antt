-- ===== src/Base/Dicts.antt =====
-- Python's dict with keys of type str, as an association list in the order of insertion.
use mathlib.Core.Path.{◌≡◌, refl}
use mathlib.Core.Logic.{◌≢◌}
use mathlib.Core.Bool.{true, false}
use mathlib.Core.Option.{Option, none, some}
use mathlib.Core.List.{List, [], ◌∷◌}
use native.Mathlib.Omega.{arith}
use pi_ghost.Base.Tests.{if◌then◌else◌}
use pi_ghost.Base.Texts.{Text, text_eq, text_eq_iff}

abbrev pub Dict {ℓ} : Type ℓ → Type ℓ
Dict A = List (Text × A)

module _ {ℓ} {A : Type ℓ} where
  -- `d.get(k)`
  abbrev pub dict_get : Text → Dict A → Option A
  dict_get k [] = none
  dict_get k ((j, a) ∷ d) = if text_eq k j then some a else dict_get k d

  -- `d[k] = a`
  abbrev pub dict_set : Text → A → Dict A → Dict A
  dict_set k a [] = (k, a) ∷ []
  dict_set k a ((j, b) ∷ d) =
      let rest = dict_set k a d in if text_eq k j then (k, a) ∷ d else (j, b) ∷ rest

  -- `d.pop(k, None)`, without its value.
  abbrev pub dict_del : Text → Dict A → Dict A
  dict_del k [] = []
  dict_del k ((j, b) ∷ d) = let rest = dict_del k d in if text_eq k j then d else (j, b) ∷ rest

pub text_eq_refl : (k : Text) → text_eq k k ≡ true
text_eq_refl k = (text_eq_iff k k).1 refl

pub text_eq_apart : (j k : Text) → j ≢ k → text_eq j k ≡ false
text_eq_apart j k h = ground (arith, text_eq_iff j k)

module _ {ℓ} {A : Type ℓ} where
  pub get-set : (k : Text) (a : A) (d : Dict A) → dict_get k (dict_set k a d) ≡ some a
  get-set k a [] = ground (arith, text_eq_refl k)
  get-set k a ((j, b) ∷ d) = ground (arith, text_eq_refl k, get-set k a d)

  pub get-set_apart :
      (j k : Text) (a : A) (d : Dict A) → j ≢ k → dict_get j (dict_set k a d) ≡ dict_get j d
  get-set_apart j k a [] h = ground (arith, text_eq_apart j k h)
  get-set_apart j k a ((i, b) ∷ d) h =
      ground
        (arith, text_eq_iff k i, text_eq_apart j k h, text_eq_apart j i, get-set_apart j k a d h)

  pub get-set_any :
      (j k : Text) (a : A) (d : Dict A)
      → dict_get j (dict_set k a d) ≡ (if text_eq j k then some a else dict_get j d)
  get-set_any j k a [] = ground arith
  get-set_any j k a ((i, b) ∷ d) =
      ground (arith, text_eq_iff k i, text_eq_iff j k, text_eq_iff j i, get-set_any j k a d)
