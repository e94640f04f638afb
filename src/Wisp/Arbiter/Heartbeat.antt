-- ===== src/Wisp/Arbiter/Heartbeat.antt =====
-- The heartbeats of the session in the slot, in session_table.c and control_plane.c.
use mathlib.Core.Path.{subst}
use pi_ghost.Base.{
  ℕ, ◌+◌, ◌≤◌, ◌<◌, ◌≡◌, ◌⊎◌, refl, sym, ap, ◌∙◌, true, false, Option, none, some, inl, inr, arith,
  Option-cases,
}
use pi_ghost.Wisp.Types.{Timespec}
use pi_ghost.Wisp.Table.{slot_at, timed_out, check_active}
use pi_ghost.Wisp.Table
use pi_ghost.Wisp.Queue.{find_next_queued}
use pi_ghost.Wisp.Queue.Order.{find_next_queued-queued}
use pi_ghost.Wisp.Control.{ControlPlane, maybe_grant_next_queued}
use pi_ghost.Wisp.Loop.{check_heartbeats, time_out}
use pi_ghost.Wisp.Arbiter.{vacant, warming, running, IsIn}
use pi_ghost.Wisp.Arbiter.Grants.{do_grant-IsIn}
use pi_ghost.Wisp.Arbiter.Service.{maybe_grant_next_queued-vacant}
use pi_ghost.Wisp.Arbiter.Turns.{notified, notified-IsIn}
use pi_ghost.Wisp.Arbiter.Deadline.{nanos}

pub timed_out-nanos :
    (now last : Timespec)
    → now.tv_nsec < 1000000000
    → last.tv_nsec < 1000000000
    → (nanos now ≤ nanos last + 1000000000 → timed_out now last ≡ false)
      × (nanos last + 1002000000 ≤ nanos now → timed_out now last ≡ true)
timed_out-nanos now last h k = (λ e. ground arith, λ e. ground arith)

time_out-some :
    (cp : ControlPlane) (now : Timespec) (i : ℕ) (o : Option ℕ)
    → o ≡ some i
    → time_out cp now (check_active cp.table now o)
      ≡ time_out cp now (check_active cp.table now (some i))
time_out-some cp now i none e = ground arith
time_out-some cp now i (some k) e = ap (λ x. time_out cp now (check_active cp.table now x)) e

module _ (cp : ControlPlane) (now : Timespec) (i : ℕ) where
  alive_at :
      timed_out now (slot_at cp.table i).last_heartbeat_monotonic ≡ false
      → time_out cp now (check_active cp.table now (some i)) ≡ cp
  alive_at e = rw e refl

  dead_at :
      timed_out now (slot_at cp.table i).last_heartbeat_monotonic ≡ true
      → time_out cp now (check_active cp.table now (some i))
        ≡ maybe_grant_next_queued (notified cp i) now
  dead_at e = rw e refl

-- The slot has passed on: it is vacant and nobody waits, or the first in the queue of `t` has it.
abbrev pub IsPassedOn : Table.SessionTable → ControlPlane → Type 0
IsPassedOn t cp =
    (IsIn cp vacant × (find_next_queued t ≡ none))
    ⊎ ((k : ℕ) × (find_next_queued t ≡ some k) × IsIn cp (warming k))

passed_on :
    (cp : ControlPlane) (now : Timespec)
    → IsIn cp vacant
    → IsPassedOn cp.table (maybe_grant_next_queued cp now)
passed_on cp now v = elim (Option-cases (find_next_queued cp.table)) [
  | inl e ↦ rw ((maybe_grant_next_queued-vacant cp now v).1 e) (inl (v, e))
  | inr (k, e) ↦
      rw ((maybe_grant_next_queued-vacant cp now v).0 k e)
        (inr (k, e, do_grant-IsIn cp k v (ground (arith, find_next_queued-queued cp.table k e))))
]

module _ (cp : ControlPlane) (now : Timespec) (i : ℕ) (v : IsIn cp (running i))
    (h : now.tv_nsec < 1000000000)
    (k : (slot_at cp.table i).last_heartbeat_monotonic.tv_nsec < 1000000000) where
  first : check_heartbeats cp now ≡ time_out cp now (check_active cp.table now (some i))
  first = time_out-some cp now i cp.table.active_slot v.active

  -- As long as the last heartbeat of the session in the slot is no more than a second old, the check
  -- of the heartbeats changes nothing. The times are well formed.
  pub check_heartbeats_kept :
      nanos now ≤ nanos (slot_at cp.table i).last_heartbeat_monotonic + 1000000000
      → check_heartbeats cp now ≡ cp
  check_heartbeats_kept l = first ∙ alive_at cp now i ((timed_out-nanos now _ h k).0 l)

  -- Once the last heartbeat of the session in the slot is 1002 milliseconds old or older, the check
  -- of the heartbeats takes the slot away: it passes to the first in the queue, or is vacant where
  -- nobody waits. The times are well formed.
  pub check_heartbeats-IsPassedOn :
      nanos (slot_at cp.table i).last_heartbeat_monotonic + 1002000000 ≤ nanos now
      → IsPassedOn (Table.deactivate cp.table i) (check_heartbeats cp now)
  check_heartbeats-IsPassedOn l =
      subst (IsPassedOn (Table.deactivate cp.table i))
        (sym (first ∙ dead_at cp now i ((timed_out-nanos now _ h k).1 l)))
        (passed_on (notified cp i) now (notified-IsIn cp i v))
