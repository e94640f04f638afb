-- ===== src/KdocParser/Enum/Described.antt =====
-- The members of an enum and their descriptions.
use pi_ghost.Base.{
  ℕ, ◌≡◌, refl, sym, ap, ◌∙◌, Bool, true, false, ◌||◌, Option, none, some, List, [], ◌∷◌, ◌++◌,
  Text, text_eq, Dict, dict_get, get-set_any, text_eq_iff, Bool-cases, append_assoc, append-nil,
  inl, inr,
}
use pi_ghost.KdocParser.Entry.{KernelEntry, emit_msg}
use pi_ghost.KdocParser.Export.{is_member}
use pi_ghost.KdocParser.Enum.{undescribed, list_member, add_member, add_members}

-- What a name is described by, where `listed` says whether it is a member.
pub described : Bool → Option Text → Option Text
described listed (some w) = some w
described true none = some undescribed
described false none = none

undescribed_same : (o : Option Text) → o ≡ described false o
unfolding described
undescribed_same (some w) = refl
undescribed_same none = refl

same_key : (k arg : Text) (d : Dict Text) → text_eq k arg ≡ true → dict_get k d ≡ dict_get arg d
same_key k arg d t = ap (λ x. dict_get x d) ((text_eq_iff k arg).0 t)

list_member-list :
    (o : Option Text) (ln : ℕ) (title arg : Text) (e : KernelEntry)
    → (list_member o ln title arg e).parameterlist ≡ e.parameterlist ++ arg ∷ []
unfolding list_member emit_msg
list_member-list (some w) ln title arg e = refl
list_member-list none ln title arg e = refl

list_member-descs :
    (o : Option Text) (ln : ℕ) (title arg k : Text) (e : KernelEntry)
    → dict_get arg e.parameterdescs ≡ o
    → dict_get k (list_member o ln title arg e).parameterdescs
      ≡ described (text_eq k arg) (dict_get k e.parameterdescs)
unfolding list_member described emit_msg
list_member-descs (some w) ln title arg k e h = elim (Bool-cases (text_eq k arg)) [
  | inl t ↦ rw (t, same_key k arg e.parameterdescs t ∙ h) refl
  | inr f ↦ rw f (undescribed_same _)
]
list_member-descs none ln title arg k e h =
    get-set_any k arg undescribed e.parameterdescs ∙ elim (Bool-cases (text_eq k arg)) [
      | inl t ↦ rw (t, same_key k arg e.parameterdescs t ∙ h) refl
      | inr f ↦ rw f (undescribed_same _)
    ]

described-or : (a b : Bool) (o : Option Text) → described a (described b o) ≡ described (b || a) o
unfolding described
described-or a b (some w) = refl
described-or true true none = refl
described-or false true none = refl
described-or true false none = refl
described-or false false none = refl

-- `dump_enum` lists the members of an enum in order. A member that the comment describes keeps its
-- description, one that it does not is undescribed, and what is no member keeps the description
-- that it has, if any.
pub add_members-described :
    (ln : ℕ) (title k : Text) (args : List Text) (e : KernelEntry)
    → ((add_members ln title args e).parameterlist ≡ e.parameterlist ++ args)
      × (dict_get k (add_members ln title args e).parameterdescs
          ≡ described (is_member k args) (dict_get k e.parameterdescs))
unfolding add_members add_member described
add_members-described ln title k [] e = (sym (append-nil e.parameterlist), undescribed_same _)
add_members-described ln title k (arg ∷ args) e =
    let e' : KernelEntry = add_member ln title arg e in
    let (l, d) = add_members-described ln title k args e' in
    let o = dict_get arg e.parameterdescs in
    (
      l
          ∙ ap (λ xs. xs ++ args) (list_member-list o ln title arg e)
          ∙ append_assoc e.parameterlist (arg ∷ []) args,
      d
          ∙ ap (described (is_member k args)) (list_member-descs o ln title arg k e refl)
          ∙ described-or (is_member k args) (text_eq k arg) (dict_get k e.parameterdescs),
    )
