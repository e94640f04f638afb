-- ===== src/Wisp/Arbiter/Grants.antt =====
-- The grants and the evictions of control_plane.c follow the specification of the slot.
use mathlib.Core.Path.{subst}
use pi_ghost.Base.{
  ℕ, ◌≡◌, ◌≢◌, refl, true, false, Option, none, some, inl, inr, ◌==◌, arith, Bool-cases,
}
use pi_ghost.Wisp.Types.{Timespec, evicting_cooperative}
use pi_ghost.Wisp.Table.{slot_at, set_state, set_granted, rt_slot_taken}
use pi_ghost.Wisp.Queue.{is_queued}
use pi_ghost.Wisp.Queue.Order.{find_next_queued-queued}
use pi_ghost.Wisp.Control.{
  ControlPlane, do_grant, grant_target, grant_or_remember, begin_eviction, grant_slot,
  finish_pending_grant, maybe_grant_next_queued, evict_and_kick, may_be_granted, grant_next,
  evict_or_grant,
}
use pi_ghost.Wisp.Arbiter.{
  Arbiter, vacant, warming, running, winding, grants, evicts, stays, moves_on, active_in, IsIn,
  Follows,
}
use pi_ghost.Wisp.Arbiter.Views.{get_or-update, taken-role}

pub do_grant-IsIn :
    (cp : ControlPlane) (idx : ℕ)
    → IsIn cp vacant
    → (slot_at cp.table idx).in_use ≡ true
    → IsIn (do_grant cp idx) (warming idx)
do_grant-IsIn cp idx v h = record {
  roles = λ j. ground (
    arith,
    get_or-update cp.table.slots idx j (set_granted (evict_and_kick cp).ring.generation) refl,
    v.roles j,
    v.roles idx,
  );
  active = v.active;
  evicting = v.evicting;
}

pub begin_eviction-IsIn :
    (cp : ControlPlane) (now : Timespec) (i target : ℕ)
    → IsIn cp (running i)
    → IsIn (begin_eviction cp now i target) (winding i)
begin_eviction-IsIn cp now i target v = record {
  roles = λ j. ground (
    arith,
    get_or-update cp.table.slots i j (set_state evicting_cooperative) refl,
    v.roles j,
    v.roles i,
  );
  active = ground (arith, v.roles i, v.active);
  evicting = refl;
}

pub rt_slot_taken-vacant :
    (cp : ControlPlane) (a : Arbiter) → IsIn cp a → rt_slot_taken cp.table ≡ false → a ≡ vacant
rt_slot_taken-vacant cp vacant v h = refl
rt_slot_taken-vacant cp (warming i) v h = ground (arith, v.roles i, taken-role cp.table.slots i h)
rt_slot_taken-vacant cp (running i) v h = ground (arith, v.roles i, taken-role cp.table.slots i h)
rt_slot_taken-vacant cp (winding i) v h = ground (arith, v.roles i, taken-role cp.table.slots i h)

pub taken_unless_vacant :
    (cp : ControlPlane) (a : Arbiter) → IsIn cp a → a ≢ vacant → rt_slot_taken cp.table ≡ true
taken_unless_vacant cp a v ne = elim (Bool-cases (rt_slot_taken cp.table)) [
  | inl t ↦ t
  | inr t ↦ absurd (ne (rt_slot_taken-vacant cp a v t))
]

pub grant_target-Follows :
    (cp : ControlPlane) (o : Option ℕ) → IsIn cp vacant → Follows vacant (grant_target cp o)
grant_target-Follows cp none v = (vacant, stays, v)
grant_target-Follows cp (some target) v = elim (Bool-cases (slot_at cp.table target).in_use) [
  | inr e ↦ rw e (vacant, stays, v)
  | inl e ↦ elim (Bool-cases (may_be_granted (slot_at cp.table target).state)) [
    | inr g ↦ rw (e, g) (vacant, stays, v)
    | inl g ↦ rw (e, g) (warming target, moves_on (grants target), do_grant-IsIn cp target v e)
  ]
]

pub finish_pending_grant-Follows :
    (cp : ControlPlane) → IsIn cp vacant → Follows vacant (finish_pending_grant cp)
finish_pending_grant-Follows cp v =
    grant_target-Follows (record cp { pending_grant_target = none }) cp.pending_grant_target
      (record { roles = v.roles; active = v.active; evicting = v.evicting })

grant_or_remember-Follows :
    (cp : ControlPlane) (a : Arbiter) (idx : ℕ)
    → IsIn cp a
    → (slot_at cp.table idx).in_use ≡ true
    → Follows a (grant_or_remember cp idx)
grant_or_remember-Follows cp a idx v h = elim (Bool-cases (rt_slot_taken cp.table)) [
  | inl e ↦ rw e (a, stays, record { roles = v.roles; active = v.active; evicting = v.evicting })
  | inr e ↦
      rw (e, rt_slot_taken-vacant cp a v e)
        (
          warming idx,
          moves_on (grants idx),
          do_grant-IsIn cp idx (subst (IsIn cp) (rt_slot_taken-vacant cp a v e) v) h,
        )
]

pub active_in-some : (a : Arbiter) (i : ℕ) → some i ≡ active_in a → a ≡ running i
active_in-some vacant i e = ground arith
active_in-some (warming k) i e = ground arith
active_in-some (winding k) i e = ground arith
active_in-some (running k) i e = ground arith

evict_or_grant-Follows :
    (cp : ControlPlane) (now : Timespec) (a : Arbiter) (idx : ℕ) (o : Option ℕ)
    → IsIn cp a
    → o ≡ active_in a
    → (slot_at cp.table idx).in_use ≡ true
    → Follows a (evict_or_grant cp now idx o)
evict_or_grant-Follows cp now a idx none v e h = grant_or_remember-Follows cp a idx v h
evict_or_grant-Follows cp now a idx (some i) v e h = elim (Bool-cases (i == idx)) [
  | inl k ↦ rw k (grant_or_remember-Follows cp a idx v h)
  | inr k ↦
      rw (k, active_in-some a i e)
        (
          winding i,
          moves_on (evicts i),
          begin_eviction-IsIn cp now i idx (subst (IsIn cp) (active_in-some a i e) v),
        )
]

pub grant_slot-Follows :
    (cp : ControlPlane) (now : Timespec) (a : Arbiter) (idx : ℕ)
    → IsIn cp a
    → (slot_at cp.table idx).in_use ≡ true
    → Follows a (grant_slot cp now idx)
grant_slot-Follows cp now a idx v h =
    evict_or_grant-Follows cp now a idx cp.table.active_slot v v.active h

grant_next-Follows :
    (cp : ControlPlane) (now : Timespec) (a : Arbiter) (o : Option ℕ)
    → IsIn cp a
    → ((i : ℕ) → o ≡ some i → is_queued (slot_at cp.table i) ≡ true)
    → Follows a (grant_next cp now o)
grant_next-Follows cp now a none v q = (a, stays, v)
grant_next-Follows cp now a (some i) v q =
    grant_slot-Follows cp now a i v (ground (arith, q i refl))

pub maybe_grant_next_queued-Follows :
    (cp : ControlPlane) (now : Timespec) (a : Arbiter)
    → IsIn cp a
    → Follows a (maybe_grant_next_queued cp now)
maybe_grant_next_queued-Follows cp now a v = elim (Bool-cases (rt_slot_taken cp.table)) [
  | inl e ↦ rw e (a, stays, v)
  | inr e ↦ rw e (grant_next-Follows cp now a _ v (find_next_queued-queued cp.table))
]
