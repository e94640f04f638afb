-- ===== src/Wisp/Arbiter/Service.antt =====
-- When the slot becomes free, control_plane.c serves who waits for it.
use mathlib.Core.Path.{subst}
use pi_ghost.Base.{
  ℕ, ◌≡◌, ◌⊎◌, refl, true, false, Option, none, some, inl, inr, ◌==◌, arith, Bool-cases,
  Option-cases,
}
use pi_ghost.Wisp.Types.{Timespec}
use pi_ghost.Wisp.Table.{slot_at, rt_slot_taken}
use pi_ghost.Wisp.Queue.{is_queued, find_next_queued}
use pi_ghost.Wisp.Queue.Order.{IsNext, find_next_queued-IsNext, find_next_queued-queued}
use pi_ghost.Wisp.Control.{
  ControlPlane, do_grant, maybe_grant_next_queued, grant_slot, evict_or_grant, grant_or_remember,
  begin_eviction,
}
use pi_ghost.Wisp.Arbiter.{Arbiter, vacant, warming, winding, IsIn, active_in}
use pi_ghost.Wisp.Arbiter.Views.{role-taken}
use pi_ghost.Wisp.Arbiter.Grants.{
  taken_unless_vacant, rt_slot_taken-vacant, do_grant-IsIn, begin_eviction-IsIn, active_in-some,
}

grants_when_vacant :
    (cp : ControlPlane) (now : Timespec) (i : ℕ) (o : Option ℕ)
    → o ≡ none
    → rt_slot_taken cp.table ≡ false
    → evict_or_grant cp now i o ≡ do_grant cp i
grants_when_vacant cp now i none e t = rw t refl
grants_when_vacant cp now i (some k) e t = ground arith

grant_slot-vacant :
    (cp : ControlPlane) (now : Timespec) (i : ℕ)
    → IsIn cp vacant
    → grant_slot cp now i ≡ do_grant cp i
grant_slot-vacant cp now i v =
    grants_when_vacant cp now i cp.table.active_slot v.active (role-taken cp.table.slots v.roles)

-- While the slot is vacant, maybe_grant_next_queued grants it to the queued session that comes
-- first, and does nothing if none is queued.
pub maybe_grant_next_queued-vacant :
    (cp : ControlPlane) (now : Timespec)
    → IsIn cp vacant
    → ((i : ℕ)
        → find_next_queued cp.table ≡ some i
        → maybe_grant_next_queued cp now ≡ do_grant cp i)
      × (find_next_queued cp.table ≡ none → maybe_grant_next_queued cp now ≡ cp)
maybe_grant_next_queued-vacant cp now v = (
  λ i e. rw (role-taken cp.table.slots v.roles, e) (grant_slot-vacant cp now i v),
  λ e. rw (role-taken cp.table.slots v.roles, e) refl,
)

-- No session waits for a slot that nobody has.
abbrev pub IsServed : ControlPlane → Type 0
IsServed cp = (rt_slot_taken cp.table ≡ true) ⊎ ((k : ℕ) → is_queued (slot_at cp.table k) ≡ false)

do_grant-taken :
    (cp : ControlPlane) (i : ℕ)
    → IsIn cp vacant
    → (slot_at cp.table i).in_use ≡ true
    → rt_slot_taken (do_grant cp i).table ≡ true
do_grant-taken cp i v h =
    taken_unless_vacant (do_grant cp i) (warming i) (do_grant-IsIn cp i v h) (λ e. ground arith)

pub maybe_grant_next_queued-IsServed :
    (cp : ControlPlane) (now : Timespec) (a : Arbiter)
    → IsIn cp a
    → IsServed (maybe_grant_next_queued cp now)
maybe_grant_next_queued-IsServed cp now a v = elim (Bool-cases (rt_slot_taken cp.table)) [
  | inl t ↦ rw t (inl t)
  | inr t ↦
      let w = subst (IsIn cp) (rt_slot_taken-vacant cp a v t) v in
      elim (Option-cases (find_next_queued cp.table)) [
        | inl e ↦
            rw ((maybe_grant_next_queued-vacant cp now w).1 e)
              (inr (subst (IsNext cp.table) e (find_next_queued-IsNext cp.table)))
        | inr (i, e) ↦
            rw ((maybe_grant_next_queued-vacant cp now w).0 i e)
              (inl (do_grant-taken cp i w (ground (arith, find_next_queued-queued cp.table i e))))
      ]
]

grant_or_remember-taken :
    (cp : ControlPlane) (a : Arbiter) (i : ℕ)
    → IsIn cp a
    → (slot_at cp.table i).in_use ≡ true
    → rt_slot_taken (grant_or_remember cp i).table ≡ true
grant_or_remember-taken cp a i v h = elim (Bool-cases (rt_slot_taken cp.table)) [
  | inl t ↦ rw t t
  | inr t ↦ rw t (do_grant-taken cp i (subst (IsIn cp) (rt_slot_taken-vacant cp a v t) v) h)
]

evict_or_grant-taken :
    (cp : ControlPlane) (now : Timespec) (a : Arbiter) (i : ℕ) (o : Option ℕ)
    → IsIn cp a
    → o ≡ active_in a
    → (slot_at cp.table i).in_use ≡ true
    → rt_slot_taken (evict_or_grant cp now i o).table ≡ true
evict_or_grant-taken cp now a i none v e h = grant_or_remember-taken cp a i v h
evict_or_grant-taken cp now a i (some k) v e h = elim (Bool-cases (k == i)) [
  | inl c ↦ rw c (grant_or_remember-taken cp a i v h)
  | inr c ↦ rw c (
      taken_unless_vacant (begin_eviction cp now k i) (winding k)
        (begin_eviction-IsIn cp now k i (subst (IsIn cp) (active_in-some a k e) v))
        (λ p. ground arith))
]

-- A grant to a session in use leaves the slot taken.
pub grant_slot-taken :
    (cp : ControlPlane) (now : Timespec) (a : Arbiter) (i : ℕ)
    → IsIn cp a
    → (slot_at cp.table i).in_use ≡ true
    → rt_slot_taken (grant_slot cp now i).table ≡ true
grant_slot-taken cp now a i v h = evict_or_grant-taken cp now a i cp.table.active_slot v v.active h

-- Where the slot keeps its holder and nobody joins the queue, nobody starts to wait in vain.
pub kept-IsServed :
    (cp dq : ControlPlane) (a : Arbiter)
    → IsIn cp a
    → IsIn dq a
    → ((k : ℕ) → is_queued (slot_at dq.table k) ≡ true → is_queued (slot_at cp.table k) ≡ true)
    → IsServed cp
    → IsServed dq
kept-IsServed cp dq a v w h (inl t) = inl (
    taken_unless_vacant dq a w
      λ e. ground (arith, role-taken cp.table.slots (subst (IsIn cp) e v).roles))
kept-IsServed cp dq a v w h (inr f) = inr λ k. elim (Bool-cases (is_queued (slot_at dq.table k))) [
  | inl q ↦ ground (arith, f k, h k q)
  | inr q ↦ q
]
