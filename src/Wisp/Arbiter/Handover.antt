-- ===== src/Wisp/Arbiter/Handover.antt =====
-- An eviction of control_plane.c ends: the slot goes to the session for which it was begun.
use mathlib.Core.Path.{subst}
use pi_ghost.Base.{ℕ, ◌≤◌, ◌<◌, ◌≡◌, ◌≢◌, refl, sym, ◌∙◌, true, Option, none, some, arith}
use pi_ghost.Wisp.Types.{Timespec}
use pi_ghost.Wisp.Table.{Session, slot_at, set_reclaimed, mark_forced, update, check_active}
use pi_ghost.Wisp.Control.{ControlPlane, finish_pending_grant, grant_target, may_be_granted}
use pi_ghost.Wisp.Handlers.{handle_stopped, reclaim}
use pi_ghost.Wisp.Loop.{tick, force_evicting, force_out, deadline_passed, time_out}
use pi_ghost.Wisp.Arbiter.{vacant, warming, winding, IsIn}
use pi_ghost.Wisp.Arbiter.Views.{get_or-update_apart}
use pi_ghost.Wisp.Arbiter.Grants.{do_grant-IsIn}
use pi_ghost.Wisp.Arbiter.Releases.{reclaim-IsIn}
use pi_ghost.Wisp.Arbiter.Turns.{force_out-IsIn}
use pi_ghost.Wisp.Arbiter.Grants.{taken_unless_vacant}
use pi_ghost.Wisp.Arbiter.Stopped.{winding-cooperative}
use pi_ghost.Wisp.Arbiter.Deadline.{nanos, deadline_passed-nanos}

-- A session in use that is NEGOTIATED or QUEUED, and so may be granted the slot.
abbrev pub IsGrantable : Session → Type 0
IsGrantable s = (s.in_use ≡ true) × (may_be_granted s.state ≡ true)

some-inj : (k t : ℕ) → some k ≡ some t → k ≡ t
some-inj k t e = ground arith

grant_target-IsIn :
    (cp : ControlPlane) (t : ℕ) (o : Option ℕ)
    → IsIn cp vacant
    → o ≡ some t
    → IsGrantable (slot_at cp.table t)
    → IsIn (grant_target cp o) (warming t)
grant_target-IsIn cp t none v e g = ground arith
grant_target-IsIn cp t (some k) v e g = rw (some-inj k t e, g.0, g.1) (do_grant-IsIn cp t v g.0)

finish_pending_grant-IsIn :
    (cp : ControlPlane) (t : ℕ)
    → IsIn cp vacant
    → cp.pending_grant_target ≡ some t
    → IsGrantable (slot_at cp.table t)
    → IsIn (finish_pending_grant cp) (warming t)
finish_pending_grant-IsIn cp t v e g =
    grant_target-IsIn (record cp { pending_grant_target = none }) t cp.pending_grant_target
      (record { roles = v.roles; active = v.active; evicting = v.evicting }) e g

timed_nothing :
    (cp : ControlPlane) (now : Timespec) (o : Option ℕ)
    → o ≡ none
    → time_out cp now (check_active cp.table now o) ≡ cp
timed_nothing cp now none e = refl
timed_nothing cp now (some k) e = ground arith

forces_out :
    (cp : ControlPlane) (now : Timespec) (i t : ℕ) (o : Option ℕ)
    → o ≡ some i
    → deadline_passed now cp.eviction_deadline_monotonic ≡ true
    → IsIn (finish_pending_grant (force_out cp i)) (warming t)
    → IsIn (force_evicting cp now o) (warming t)
forces_out cp now i t none e d w = ground arith
forces_out cp now i t (some k) e d w =
    rw
      (
        d,
        some-inj k i e,
        taken_unless_vacant (finish_pending_grant (force_out cp i)) (warming t) w
            (λ p. ground arith),
      )
      w

module _ (cp : ControlPlane) (i t : ℕ) (v : IsIn cp (winding i))
    (e : cp.pending_grant_target ≡ some t) (g : IsGrantable (slot_at cp.table t)) where
  apart : i ≢ t
  apart = λ p. ground (arith, v.roles i)

  -- STOPPED of the session that winds down hands the slot to the pending target, if that one is
  -- still in use and NEGOTIATED or QUEUED.
  pub handle_stopped-hands_over : IsIn (handle_stopped cp i) (warming t)
  handle_stopped-hands_over = rw (winding-cooperative cp i v) (
      finish_pending_grant-IsIn (reclaim cp i) t (reclaim-IsIn cp i v) e
        (subst IsGrantable (sym (get_or-update_apart cp.table.slots i t set_reclaimed apart)) g))

  forced_out : IsIn (finish_pending_grant (force_out cp i)) (warming t)
  forced_out = finish_pending_grant-IsIn (force_out cp i) t (force_out-IsIn cp i v) e (
      subst IsGrantable
        (sym (
          get_or-update_apart (update cp.table i mark_forced).slots i t set_reclaimed apart
          ∙ get_or-update_apart cp.table.slots i t mark_forced apart))
        g)

  -- The session `i` winds down, and the pending target `t` is in use and NEGOTIATED or QUEUED. Without
  -- STOPPED, a turn of the loop at or after the deadline of the eviction takes the slot away and hands
  -- it to `t`, in its warm-up. The times are well formed.
  pub tick-hands_over :
      (now : Timespec)
      → now.tv_nsec < 1000000000
      → cp.eviction_deadline_monotonic.tv_nsec < 1000000000
      → nanos cp.eviction_deadline_monotonic ≤ nanos now
      → IsIn (tick cp now) (warming t)
  tick-hands_over now h k l = rw (timed_nothing cp now cp.table.active_slot v.active) (
      forces_out cp now i t cp.evicting_slot v.evicting ((deadline_passed-nanos now _ h k).0 l)
        forced_out)
