-- ===== src/CLex/Args/Filled.antt =====
-- `groups` and `tokens` on a call.
use pi_ghost.Base.{
  ℕ, zero, suc, ◌+◌, ◌≤◌, ◌<◌, ◌≡◌, ◌≢◌, ◌⊎◌, refl, ap, Bool, true, false, Option, some, List, [],
  ◌∷◌, ◌++◌, arith, All, length, get_or, Text, map, if◌then◌else◌, inl, inr,
}
use pi_ghost.CLex.Token.{begin, end, backref, Level, CToken}
use pi_ghost.CLex.Raised.{ok, raised, item_at, index_error}
use pi_ghost.CLex.Tokenizer.Levels.{Balanced}
use pi_ghost.CLex.Refs.{CTokenArgs, to_int}
use pi_ghost.CLex.Args.{
  delim_of, find_behind, find_opening, is_greedy, is_delim, mem_zero, without_backslash,
  whole_group, groups, raise_levels, fill_token, fill_in, arg_tokens,
}
use pi_ghost.CLex.Args.Dealt.{Arg, arg_row, IsArg, Stays, All-Stays, deal_args}

-- Tokens before the first BEGIN are passed over.
find_behind-opening :
    (pre : List CToken) (o : CToken) (ts : List CToken) (d : Text)
    → All (λ t. t.kind ≢ begin) pre
    → o.kind ≡ begin
    → delim_of o.value ≡ ok d
    → find_behind (pre ++ (o ∷ ts)) ≡ ok (record { delim = some d; level = o.level; behind = ts })
unfolding find_behind
find_behind-opening [] o ts d h k e = rw (k, find_behind) (rw e)
find_behind-opening (t ∷ pre) o ts d h k e = ground (arith, find_behind-opening pre o ts d h.1 k e)

find_opening-opening :
    (pre : List CToken) (o : CToken) (ts : List CToken) (d : Text)
    → All (λ t. t.kind ≢ begin) pre
    → o.kind ≡ begin
    → delim_of o.value ≡ ok d
    → find_opening (pre ++ (o ∷ ts)) ≡ ok (record { delim = some d; level = o.level; behind = ts })
unfolding find_opening
find_opening-opening [] o ts d h k e = find_behind-opening [] o ts d h k e
find_opening-opening (t ∷ pre) o ts d h k e = find_behind-opening (t ∷ pre) o ts d h k e

abbrev pub whole_of : CTokenArgs → List CToken → List CToken
whole_of a ts = if mem_zero a.sub_groups then whole_group [] 0 ts else []

-- The tokens of a call: what stands before the delimiter, the delimiter, a row of arguments, the
-- last of them, and the delimiter that closes the row.
pub record ArgCall : Type 0 where
  pub before : List CToken
  pub opener : CToken
  pub args : List Arg
  pub last : List CToken
  pub close : CToken

abbrev pub arg_call_tokens : ArgCall → List CToken
arg_call_tokens k = k.before ++ (k.opener ∷ (arg_row k.args k.last ++ k.close ∷ []))

-- The call holds at most `max` arguments, apart by the delimiter `d`; the one with the number `max`
-- may hold `d` if that group is greedy.
pub record IsArgCall (eager : Bool) (max : ℕ) (d : Text) (k : ArgCall) : Type 0 where
  pub first_begin : All (λ t. t.kind ≢ begin) k.before
  pub opens : k.opener.kind ≡ begin
  pub delimiter : delim_of k.opener.value ≡ ok d
  pub apart : All (IsArg (some d)) k.args
  pub balanced : Balanced k.last
  pub last_apart :
      ((eager ≡ true) × (length k.args + 1 ≡ max)) ⊎ All (λ t. is_delim (some d) t ≡ false) k.last
  pub as_many : length k.args + 1 ≤ max
  pub closes : k.close.kind ≡ end

last-Stays :
    (d : Option Text) (eager : Bool) (max pos : ℕ) (ts : List CToken)
    → ((eager ≡ true) × (pos ≡ max)) ⊎ All (λ t. is_delim d t ≡ false) ts
    → All (Stays d eager max pos) ts
last-Stays d eager max pos ts (inr h) = All-Stays d eager max pos ts h
last-Stays d eager max pos [] (inl h) = tt
last-Stays d eager max pos (t ∷ ts) (inl h) =
    (eager_stays d eager max pos t h, last-Stays d eager max pos ts (inl h))
  where
    eager_stays :
        (d : Option Text) (eager : Bool) (max pos : ℕ) (t : CToken)
        → (eager ≡ true) × (pos ≡ max)
        → Stays d eager max pos t
    eager_stays d eager max pos t h = ground arith

last_at : (P Q : Type 0) (n m : ℕ) → (P × (n + 1 ≡ m)) ⊎ Q → (P × (1 + n ≡ m)) ⊎ Q
last_at P Q n m (inl h) = inl (h.0, omega arith)
last_at P Q n m (inr h) = inr h

-- The groups of a call are its arguments, numbered from 1; the last one takes the rest if it is
-- greedy.
pub groups-arg_call :
    (a : CTokenArgs) (max : ℕ) (d : Text) (k : ArgCall)
    → a.max_group ≡ some max
    → IsArgCall (is_greedy a.greedy) max d k
    → groups a (arg_call_tokens k)
      ≡ ok (
        k.opener.level,
        whole_of a (arg_call_tokens k) ∷ (map (λ x. x.tokens) k.args ++ k.last ∷ []),
      )
unfolding groups
groups-arg_call a zero d k e v = absurd (omega (arith, v.as_many))
groups-arg_call a (suc m) d k e v =
    let body = arg_row k.args k.last ++ k.close ∷ [] in
    let eager = is_greedy a.greedy in
    let whole = whole_of a (arg_call_tokens k) in
    let stays =
      last-Stays (some d) eager (suc m) (1 + length k.args) k.last (last_at _ _ _ _ v.last_apart) in
    rw (e, groups)
      (rw (find_opening-opening k.before k.opener body d v.first_begin v.opens v.delimiter) (
        ap (λ gs. ok (k.opener.level, gs))
          (deal_args (some d) eager (suc m) 1 (whole ∷ []) k.args k.last k.close [] refl
            (omega (arith, v.as_many)) v.apart v.balanced stays v.closes)))

-- The replacement for a paired call whose arguments are at most as many as the template refers to is
-- the template, filled in with `\0` as it was gathered and with the arguments.
pub arg_tokens-arg_call :
    (a : CTokenArgs) (max : ℕ) (d : Text) (k : ArgCall)
    → a.max_group ≡ some max
    → IsArgCall (is_greedy a.greedy) max d k
    → arg_tokens a (arg_call_tokens k)
      ≡ fill_in k.opener.level
          (whole_of a (arg_call_tokens k) ∷ (map (λ x. x.tokens) k.args ++ k.last ∷ []))
          a.sub_tokens
unfolding arg_tokens
arg_tokens-arg_call a max d k e v = rw (groups-arg_call a max d k e v)

-- What a template stands for: each reference is replaced by its group, at the level of the call.
unfoldable pub token_template : Level → List (List CToken) → CToken → List CToken
token_template l gs t = elim t.kind [
  | backref ↦ raise_levels l (get_or gs (to_int (without_backslash t.value)) [])
  | _ ↦ t ∷ []
]

abbrev pub template : Level → List (List CToken) → List CToken → List CToken
template l gs [] = []
template l gs (t ∷ ts) = token_template l gs t ++ template l gs ts

-- The token is no reference, or one to a group with a number below `n`.
abbrev pub RefBelow : ℕ → CToken → Type 0
RefBelow n t = (t.kind ≢ backref) ⊎ (to_int (without_backslash t.value) < n)

item_at-get_or :
    (gs : List (List CToken)) (n : ℕ) → n < length gs → item_at gs n ≡ ok (get_or gs n [])
item_at-get_or [] n h = absurd (omega arith)
item_at-get_or (g ∷ gs) zero h = refl
item_at-get_or (g ∷ gs) (suc n) h = item_at-get_or gs n (omega arith)

item_at-above :
    (gs : List (List CToken)) (n : ℕ) → length gs ≤ n → item_at gs n ≡ raised index_error
item_at-above [] n h = refl
item_at-above (g ∷ gs) zero h = absurd (omega arith)
item_at-above (g ∷ gs) (suc n) h = item_at-above gs n (omega arith)

fill_token-template :
    (l : Level) (gs : List (List CToken)) (t : CToken)
    → RefBelow (length gs) t
    → fill_token l gs t ≡ ok (token_template l gs t)
unfolding fill_token token_template
fill_token-template l gs t (inl h) = ground arith
fill_token-template l gs t (inr h) =
    ground (arith, item_at-get_or gs (to_int (without_backslash t.value)) h)

fill_token-above :
    (l : Level) (gs : List (List CToken)) (t : CToken)
    → t.kind ≡ backref
    → length gs ≤ to_int (without_backslash t.value)
    → fill_token l gs t ≡ raised index_error
unfolding fill_token
fill_token-above l gs t k e = rw (k, fill_token) (rw (item_at-above gs _ e))

-- A template whose references are all below the number of groups is filled in.
pub fill_in-template :
    (l : Level) (gs : List (List CToken)) (ts : List CToken)
    → All (RefBelow (length gs)) ts
    → fill_in l gs ts ≡ ok (template l gs ts)
unfolding fill_in
fill_in-template l gs [] h = refl
fill_in-template l gs (t ∷ ts) h =
    rw (fill_token-template l gs t h.0, fill_in) (rw (fill_in-template l gs ts h.1))

-- A reference above the groups that the call has raises an IndexError.
pub fill_in-above :
    (l : Level) (gs : List (List CToken)) (pre post : List CToken) (t : CToken)
    → All (RefBelow (length gs)) pre
    → t.kind ≡ backref
    → length gs ≤ to_int (without_backslash t.value)
    → fill_in l gs (pre ++ (t ∷ post)) ≡ raised index_error
unfolding fill_in
fill_in-above l gs [] post t h k e = rw (fill_token-above l gs t k e, fill_in)
fill_in-above l gs (p ∷ pre) post t h k e =
    rw (fill_token-template l gs p h.0, fill_in) (rw (fill_in-above l gs pre post t h.1 k e))
