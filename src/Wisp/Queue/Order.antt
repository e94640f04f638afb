-- ===== src/Wisp/Queue/Order.antt =====
-- session_table.c: wisps_session_table_find_next_queued against the order of the requests, the
-- earlier time first and the lower slot among equal times.
use pi_ghost.Base.{
  ℕ, zero, suc, ◌+◌, ◌<◌, ◌≡◌, ◌≢◌, ap, sym, ◌∙◌, Bool, true, false, ◌&&◌, ◌||◌, List, [], ◌∷◌,
  Option, none, some, inl, inr, if◌then◌else◌, ltb, ◌==◌, get_or, length, arith, Bool-cases,
}
use native.Mathlib.Nat.{add-zero, zero-add, add-suc, suc-add}
use mathlib.Core.Path.{subst}
use pi_ghost.Wisp.Table.{Session, SessionTable, slot_at, free_slot}
use pi_ghost.Wisp.Queue.{is_queued, ts_less, same_time, better, next_queued_from, find_next_queued}

abbrev pub at : List Session → ℕ → Session
at slots k = get_or slots k free_slot

-- The request of slot `a` is before that of slot `b`.
abbrev pub precedes : List Session → ℕ → ℕ → Bool
precedes slots a b =
    let ta = (at slots a).activate_requested_monotonic in
    let tb = (at slots b).activate_requested_monotonic in
    ts_less ta tb || (same_time ta tb && ltb a b)

-- `best` is the first in the order among the queued slots below `n`.
abbrev pub IsFirst : List Session → ℕ → Option ℕ → Type 0
IsFirst slots n none = (k : ℕ) → k < n → is_queued (at slots k) ≡ false
IsFirst slots n (some b) =
    (b < n)
    × (is_queued (at slots b) ≡ true)
    × ((k : ℕ) → k < n → is_queued (at slots k) ≡ true → k ≢ b → precedes slots b k ≡ true)

-- An earlier request takes the place of the best one.
replaced-IsFirst :
    (slots : List Session) (i b : ℕ)
    → IsFirst slots i (some b)
    → is_queued (at slots i) ≡ true
    → ts_less (at slots i).activate_requested_monotonic (at slots b).activate_requested_monotonic
      ≡ true
    → IsFirst slots (suc i) (some i)
replaced-IsFirst slots i b f q e = (
  omega arith,
  q,
  λ k l p ne. elim (Bool-cases (k == b)) [
    | inl eq ↦ ground arith
    | inr apart ↦ ground (arith, f.2 k)
  ],
)

kept-IsFirst :
    (slots : List Session) (i b : ℕ)
    → IsFirst slots i (some b)
    → is_queued (at slots i) ≡ true
    → ts_less (at slots i).activate_requested_monotonic (at slots b).activate_requested_monotonic
      ≡ false
    → IsFirst slots (suc i) (some b)
kept-IsFirst slots i b f q e = (
  omega (arith, f.0),
  f.1,
  λ k l p ne. elim (Bool-cases (k == i)) [
    | inl eq ↦ ground (arith, f.0)
    | inr apart ↦ f.2 k (ground arith) p ne
  ],
)

better-IsFirst :
    (slots : List Session) (i : ℕ) (best : Option ℕ)
    → IsFirst slots i best
    → is_queued (at slots i) ≡ true
    → IsFirst slots (suc i) (better slots i (at slots i) best)
better-IsFirst slots i none f q = (omega arith, q, λ k l p ne. ground (arith, f k))
better-IsFirst slots i (some b) f q =
    elim (Bool-cases (
      ts_less (at slots i).activate_requested_monotonic
        (at slots b).activate_requested_monotonic)) [
          | inl e ↦ rw e (replaced-IsFirst slots i b f q e)
          | inr e ↦ rw e (kept-IsFirst slots i b f q e)
        ]

skipped-IsFirst :
    (slots : List Session) (i : ℕ) (best : Option ℕ)
    → IsFirst slots i best
    → is_queued (at slots i) ≡ false
    → IsFirst slots (suc i) best
skipped-IsFirst slots i none f q =
    λ k l. elim (Bool-cases (k == i)) [ inl e ↦ ground arith | inr e ↦ f k (ground arith) ]
skipped-IsFirst slots i (some b) f q = (
  omega (arith, f.0),
  f.1,
  λ k l p ne. elim (Bool-cases (k == i)) [
    | inl e ↦ ground arith
    | inr e ↦ f.2 k (ground arith) p ne
  ],
)

step-IsFirst :
    (slots : List Session) (i : ℕ) (s : Session) (best : Option ℕ)
    → s ≡ at slots i
    → IsFirst slots i best
    → IsFirst slots (suc i) (if is_queued s then better slots i s best else best)
step-IsFirst slots i s best e f = elim (Bool-cases (is_queued s)) [
  | inl q ↦ rw (q, e) (better-IsFirst slots i best f (rw (← e) q))
  | inr q ↦ rw q (skipped-IsFirst slots i best f (rw (← e) q))
]

next_queued_from-IsFirst :
    (slots : List Session) (i : ℕ) (rest : List Session) (best : Option ℕ)
    → ((j : ℕ) → at rest j ≡ at slots (i + j))
    → IsFirst slots i best
    → IsFirst slots (i + length rest) (next_queued_from slots i rest best)
next_queued_from-IsFirst slots i [] best al f = rw add-zero f
next_queued_from-IsFirst slots i (s ∷ rest) best al f =
    rw (add-suc, ← suc-add)
      (next_queued_from-IsFirst slots (suc i) rest _ (λ j. rw (suc-add, ← add-suc) (al (suc j)))
        (step-IsFirst slots i s best (al 0 ∙ ap (at slots) (add-zero i)) f))

pub queued-below : (slots : List Session) (k : ℕ) → is_queued (at slots k) ≡ true → k < length slots
queued-below [] k q = ground arith
queued-below (s ∷ ss) zero q = omega arith
queued-below (s ∷ ss) (suc k) q = ground (arith, queued-below ss k q)

-- The first of all the queued slots of a table, if there is one.
abbrev pub IsNext : SessionTable → Option ℕ → Type 0
IsNext t none = (k : ℕ) → is_queued (slot_at t k) ≡ false
IsNext t (some b) =
    (is_queued (slot_at t b) ≡ true)
    × ((k : ℕ) → is_queued (slot_at t k) ≡ true → k ≢ b → precedes t.slots b k ≡ true)

all-IsNext : (t : SessionTable) (o : Option ℕ) → IsFirst t.slots (length t.slots) o → IsNext t o
all-IsNext t none f = λ k. elim (Bool-cases (is_queued (slot_at t k))) [
  | inl q ↦ ground (arith, f k (queued-below t.slots k q))
  | inr q ↦ q
]
all-IsNext t (some b) f = (f.1, λ k q ne. f.2 k (queued-below t.slots k q) q ne)

-- wisps_session_table_find_next_queued returns the queued slot whose request comes before that of
-- every other queued slot, by time and then by index, and none where no slot is queued.
pub find_next_queued-IsNext : (t : SessionTable) → IsNext t (find_next_queued t)
find_next_queued-IsNext t = all-IsNext t _ (
    subst (λ n. IsFirst t.slots n (find_next_queued t)) (zero-add _)
      (next_queued_from-IsFirst t.slots 0 t.slots none (λ j. ap (at t.slots) (sym (zero-add j)))
        (λ k l. ground arith)))

pub find_next_queued-queued :
    (t : SessionTable) (i : ℕ) → find_next_queued t ≡ some i → is_queued (slot_at t i) ≡ true
find_next_queued-queued t i e = (subst (IsNext t) e (find_next_queued-IsNext t)).0
