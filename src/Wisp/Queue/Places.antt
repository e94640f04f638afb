-- ===== src/Wisp/Queue/Places.antt =====
-- session_table.c: wisps_session_table_queue_position against the order of the requests.
use mathlib.Core.Path.{subst}
use native.Mathlib.Nat.{add-zero, zero-add, add-suc, suc-add}
use pi_ghost.Base.{
  ℕ, zero, suc, ◌+◌, ◌<◌, ◌≤◌, ◌≡◌, ◌≢◌, ◌↔◌, refl, ap, sym, ◌∙◌, Bool, true, false, List, [], ◌∷◌,
  Option, none, some, inl, inr, if◌then◌else◌, ◌==◌, length, arith, Bool-cases,
}
use pi_ghost.Wisp.Types.{Timespec}
use pi_ghost.Wisp.Table.{Session, SessionTable, slot_at}
use pi_ghost.Wisp.Queue.{is_queued, is_ahead, position_from, queue_position, find_next_queued}
use pi_ghost.Wisp.Queue.Order.{at, precedes, IsNext, find_next_queued-IsNext, queued-below}

position-grows :
    (idx : ℕ) (time : Timespec) (i : ℕ) (rest : List Session) (n : ℕ)
    → n ≤ position_from idx time i rest n
position-grows idx time i [] n = omega arith
position-grows idx time i (s ∷ rest) n =
    ground
      (arith, position-grows idx time (suc i) rest n, position-grows idx time (suc i) rest (suc n))

position-bound :
    (idx : ℕ) (time : Timespec) (i : ℕ) (rest : List Session) (n : ℕ)
    → position_from idx time i rest n ≤ n + length rest
position-bound idx time i [] n = omega arith
position-bound idx time i (s ∷ rest) n =
    ground
      (arith, position-bound idx time (suc i) rest n, position-bound idx time (suc i) rest (suc n))

-- The slot itself does not count.
position-below :
    (idx : ℕ) (time : Timespec) (i : ℕ) (rest : List Session) (n : ℕ)
    → i ≤ idx
    → idx < i + length rest
    → position_from idx time i rest n < n + length rest
position-below idx time i [] n l h = ground arith
position-below idx time i (s ∷ rest) n l h = elim (Bool-cases (i == idx)) [
  | inl e ↦ ground (arith, position-bound idx time (suc i) rest n)
  | inr e ↦
      ground (
        arith,
        position-below idx time (suc i) rest n,
        position-below idx time (suc i) rest (suc n),
      )
]

-- The position of a slot is at most the number of slots, so the counter of 32 bits does not wrap.
pub queue_position-bound : (t : SessionTable) (idx : ℕ) → queue_position t idx ≤ length t.slots
queue_position-bound t idx = elim (Bool-cases (is_queued (slot_at t idx))) [
  | inl q ↦ rw q (
      omega (
        arith,
        position-below idx (slot_at t idx).activate_requested_monotonic 0 t.slots 1,
        queued-below t.slots idx q,
      ))
  | inr q ↦ rw q (omega arith)
]

bumped :
    (p q : Bool) (m n : ℕ)
    → m ≤ n
    → (p ≡ true → q ≡ true)
    → (if p then suc m else m) ≤ (if q then suc n else n)
bumped true true m n l h = omega (arith, l)
bumped true false m n l h = ground (arith, h refl)
bumped false true m n l h = omega (arith, l)
bumped false false m n l h = l

position-suc :
    (idx : ℕ) (time : Timespec) (i : ℕ) (rest : List Session) (n : ℕ)
    → position_from idx time i rest (suc n) ≡ suc (position_from idx time i rest n)
position-suc idx time i [] n = refl
position-suc idx time i (s ∷ rest) n =
    ground (arith, position-suc idx time (suc i) rest n, position-suc idx time (suc i) rest (suc n))

position-first :
    (idx : ℕ) (time : Timespec) (i : ℕ) (rest : List Session) (n : ℕ)
    → ((j : ℕ) → is_ahead idx time (i + j) (at rest j) ≡ false)
    → position_from idx time i rest n ≡ n
position-first idx time i [] n h = refl
position-first idx time i (s ∷ rest) n h =
    rw (ap (λ k. is_ahead idx time k s) (sym (add-zero i)) ∙ h 0)
      (position-first idx time (suc i) rest n (λ j. rw (suc-add, ← add-suc) (h (suc j))))

-- Whoever is ahead of the one is ahead of the other.
module _ (a b : ℕ) (ta tb : Timespec) where
  position_mono :
      (i : ℕ) (rest : List Session) (m n : ℕ)
      → m ≤ n
      → ((j : ℕ)
          → is_ahead a ta (i + j) (at rest j) ≡ true
          → is_ahead b tb (i + j) (at rest j) ≡ true)
      → position_from a ta i rest m ≤ position_from b tb i rest n
  position_mono i [] m n l h = l
  position_mono i (s ∷ rest) m n l h =
      position_mono (suc i) rest _ _ (bumped _ _ m n l h0)
        (λ j. rw (suc-add, ← add-suc) (h (suc j)))
    where
      h0 : is_ahead a ta i s ≡ true → is_ahead b tb i s ≡ true
      h0 = subst (λ k. is_ahead a ta k s ≡ true → is_ahead b tb k s ≡ true) (add-zero i) (h 0)

  -- A slot that is ahead of the other and not of the one makes the difference.
  position-strict :
      (i : ℕ) (rest : List Session) (m n c : ℕ)
      → m ≤ n
      → ((j : ℕ)
          → is_ahead a ta (i + j) (at rest j) ≡ true
          → is_ahead b tb (i + j) (at rest j) ≡ true)
      → c < length rest
      → is_ahead a ta (i + c) (at rest c) ≡ false
      → is_ahead b tb (i + c) (at rest c) ≡ true
      → position_from a ta i rest m < position_from b tb i rest n
  position-strict i [] m n c l h below behind ahead = ground arith
  position-strict i (s ∷ rest) m n zero l h below behind ahead =
      rw (behind', ahead')
        (omega (
          arith,
          position-suc a ta (suc i) rest m,
          position_mono (suc i) rest (suc m) (suc n) (omega (arith, l))
              (λ j. rw (suc-add, ← add-suc) (h (suc j))),
        ))
    where
      behind' : is_ahead a ta i s ≡ false
      behind' = ap (λ k. is_ahead a ta k s) (sym (add-zero i)) ∙ behind

      ahead' : is_ahead b tb i s ≡ true
      ahead' = ap (λ k. is_ahead b tb k s) (sym (add-zero i)) ∙ ahead
  position-strict i (s ∷ rest) m n (suc c) l h below behind ahead =
      position-strict (suc i) rest _ _ c (bumped _ _ m n l h0)
        (λ j. rw (suc-add, ← add-suc) (h (suc j))) (omega (arith, below))
        (rw (suc-add, ← add-suc) behind) (rw (suc-add, ← add-suc) ahead)
    where
      h0 : is_ahead a ta i s ≡ true → is_ahead b tb i s ≡ true
      h0 = subst (λ k. is_ahead a ta k s ≡ true → is_ahead b tb k s ≡ true) (add-zero i) (h 0)

module _ (t : SessionTable) where
  -- The times and the indices order the queued slots.
  precedes-asym : (a b : ℕ) → precedes t.slots a b ≡ true → precedes t.slots b a ≡ false
  precedes-asym a b h = ground arith

  precedes-total : (a b : ℕ) → a ≢ b → precedes t.slots a b ≡ false → precedes t.slots b a ≡ true
  precedes-total a b ne h = ground arith

  precedes_trans :
      (a b c : ℕ)
      → precedes t.slots a b ≡ true
      → precedes t.slots b c ≡ true
      → precedes t.slots a c ≡ true
  precedes_trans a b c h g = ground arith

  ahead-precedes :
      (idx k : ℕ)
      → is_ahead idx (slot_at t idx).activate_requested_monotonic k (slot_at t k) ≡ true
      → (k ≢ idx) × (is_queued (slot_at t k) ≡ true) × (precedes t.slots k idx ≡ true)
  ahead-precedes idx k h = ground arith

  precedes-ahead :
      (idx k : ℕ)
      → k ≢ idx
      → is_queued (slot_at t k) ≡ true
      → precedes t.slots k idx ≡ true
      → is_ahead idx (slot_at t idx).activate_requested_monotonic k (slot_at t k) ≡ true
  precedes-ahead idx k ne q p = ground arith

  -- Among two queued sessions the one whose request comes first, by time and then by index, has
  -- the smaller position.
  queue_position-precedes :
      (a b : ℕ)
      → is_queued (slot_at t a) ≡ true
      → is_queued (slot_at t b) ≡ true
      → precedes t.slots a b ≡ true
      → queue_position t a < queue_position t b
  queue_position-precedes a b qa qb p =
      rw (qa, qb)
        (position-strict a b (slot_at t a).activate_requested_monotonic
          (slot_at t b).activate_requested_monotonic 0 t.slots 1 1 a (omega arith)
          (λ j. rw (zero-add j) (ahead_of_both j)) (queued-below t.slots a qa)
          (rw (zero-add a) not_itself) (rw (zero-add a) (precedes-ahead b a apart qa p)))
    where
      apart : a ≢ b
      apart = λ e. ground arith

      not_itself : is_ahead a (slot_at t a).activate_requested_monotonic a (slot_at t a) ≡ false
      not_itself = ground arith

      ahead_of_both :
          (j : ℕ)
          → is_ahead a (slot_at t a).activate_requested_monotonic j (slot_at t j) ≡ true
          → is_ahead b (slot_at t b).activate_requested_monotonic j (slot_at t j) ≡ true
      ahead_of_both j h =
          let (ne, q, r) = ahead-precedes a j h in
          precedes-ahead b j (λ e. ground (arith, precedes-asym a b p)) q (precedes_trans j a b r p)

  queue_position-positive : (idx : ℕ) → is_queued (slot_at t idx) ≡ true → 1 ≤ queue_position t idx
  queue_position-positive idx q =
      rw q (position-grows idx (slot_at t idx).activate_requested_monotonic 0 t.slots 1)

  position-next : (idx : ℕ) (o : Option ℕ) → IsNext t o → queue_position t idx ≡ 1 → o ≡ some idx
  position-next idx none f e = ground (arith, f idx)
  position-next idx (some b) f e = elim (Bool-cases (is_queued (slot_at t idx))) [
    | inr q ↦ ground arith
    | inl q ↦ elim (Bool-cases (b == idx)) [
      | inl same ↦ ground arith
      | inr apart ↦ ground (
        arith,
        queue_position-precedes b idx f.0 q (f.1 idx q (λ e. ground arith)),
        queue_position-positive b f.0,
      )
    ]
  ]

  first-position : (idx : ℕ) → IsNext t (some idx) → queue_position t idx ≡ 1
  first-position idx f = rw f.0 (
      position-first idx (slot_at t idx).activate_requested_monotonic 0 t.slots 1
        (λ j. rw (zero-add j) (not_ahead j)))
    where
      not_ahead :
          (j : ℕ)
          → is_ahead idx (slot_at t idx).activate_requested_monotonic j (slot_at t j) ≡ false
      not_ahead j =
          elim (Bool-cases
            (is_ahead idx (slot_at t idx).activate_requested_monotonic j (slot_at t j))) [
              | inr e ↦ e
              | inl e ↦
                  let (ne, q, p) = ahead-precedes idx j e in
                  ground (arith, precedes-asym idx j (f.1 j q ne))
            ]

  -- A session has position 1 exactly if wisps_session_table_find_next_queued returns it.
  pub queue_position-next : (idx : ℕ) → (queue_position t idx ≡ 1) ↔ (find_next_queued t ≡ some idx)
  queue_position-next idx = (
    position-next idx _ (find_next_queued-IsNext t),
    λ e. first-position idx (subst (IsNext t) e (find_next_queued-IsNext t)),
  )
