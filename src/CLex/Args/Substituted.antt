-- ===== src/CLex/Args/Substituted.antt =====
-- `CTokenArgs.tokens` on a call, against what its doc says that a template stands for.
use pi_ghost.Base.{
  ℕ, zero, suc, ◌+◌, ◌<◌, ◌≡◌, ◌≢◌, ◌⊎◌, true, List, [], ◌∷◌, ◌++◌, All, length, get_or, Text, map,
}
use pi_ghost.CLex.Token.{backref, Level, CToken}
use pi_ghost.CLex.Tokenizer.Levels.{IsPlain, Balanced}
use pi_ghost.CLex.Refs.{CTokenArgs, to_int}
use pi_ghost.CLex.Args.{is_greedy, mem_zero, without_backslash}
use pi_ghost.CLex.Args.Dealt.{arg_row}
use pi_ghost.CLex.Args.Filled.{ArgCall, IsArgCall, arg_call_tokens, whole_of}

-- A token deeper by a level.
abbrev pub lifted : Level → CToken → CToken
lifted l t = record t {
  level = record {
    bracket = t.level.bracket + l.bracket;
    paren = t.level.paren + l.paren;
    brace = t.level.brace + l.brace;
  };
}

-- The argument with a number; 0 is all that stands between the delimiters.
abbrev pub argument : ArgCall → ℕ → List CToken
argument k zero = arg_row k.args k.last
argument k (suc n) = get_or (map (λ x. x.tokens) k.args ++ k.last ∷ []) n []

abbrev pub reference : CToken → ℕ
reference t = to_int (without_backslash t.value)

abbrev pub substituted : ArgCall → List CToken → List CToken
substituted k [] = []
substituted k (t ∷ ts) =
    let rest = substituted k ts in
    elim t.kind [
      | backref ↦ map (lifted k.opener.level) (argument k (reference t)) ++ rest
      | _ ↦ t ∷ rest
    ]

-- No reference, or one to an argument of the call, where \0 is among the groups of the template.
abbrev pub IsFillable : CTokenArgs → ArgCall → CToken → Type 0
IsFillable a k t =
    (t.kind ≢ backref)
    ⊎ ((reference t < 2 + length k.args) × (reference t ≡ 0 → mem_zero a.sub_groups ≡ true))

-- The first token between the delimiters is no delimiter itself.
pub record HasPlainStart (k : ArgCall) : Type 0 where
  pub first : CToken
  pub others : List CToken
  pub row : arg_row k.args k.last ≡ first ∷ others
  pub plain_first : IsPlain first.kind
  pub balanced : Balanced others
  pub plain_before : All (λ t. IsPlain t.kind) k.before

module _ (a : CTokenArgs) (max : ℕ) (d : Text) (k : ArgCall)
    (v : IsArgCall (is_greedy a.greedy) max d k) (s : HasPlainStart k) where
  abbrev groups_of : List (List CToken)
  groups_of = whole_of a (arg_call_tokens k) ∷ (map (λ x. x.tokens) k.args ++ k.last ∷ [])
