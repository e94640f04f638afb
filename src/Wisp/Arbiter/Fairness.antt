-- ===== src/Wisp/Arbiter/Fairness.antt =====
-- Runs of wisps_control_plane_run in which no session winds down by STOPPED: nobody waits in vain.
use mathlib.Core.Path.{subst}
use pi_ghost.Base.{
  ℕ, ◌≡◌, ◌≢◌, refl, ap, get_or, true, List, Option, none, some, inl, inr, arith, Bool-cases,
}
use pi_ghost.Wisp.Types.{Timespec}
use pi_ghost.Wisp.Table.{
  Session, slot_at, free_slot, update_slots, update, is_active_rt, claimed, claim, is_free,
  find_index, check_active, timed_out, find_by_client_id,
}
use pi_ghost.Wisp.Queue.{is_queued}
use pi_ghost.Wisp.Control.{ControlPlane, with_table, may_be_granted}
use pi_ghost.Wisp.Handlers.{
  handle_readable, checked_connect, Received, lost, oversized, connect, activate_request,
  ready_for_rt, grant_decline, stopped, heartbeat, disconnect, dmabuf_announce, malformed_announce,
  unexpected,
}
use pi_ghost.Wisp.Loop.{
  accept_into, switch_to, switch_found, check_heartbeats, time_out, force_evicting, force_out,
  deadline_passed, tick, Event, accepted, readable, hung_up, list_query, switch_query, turn_ends,
  handle,
}
use pi_ghost.Wisp.Arbiter.{Arbiter, vacant, IsIn, active_in, evicting_in}
use pi_ghost.Wisp.Arbiter.Views.{find_index-found, is_queued-update}
use pi_ghost.Wisp.Arbiter.Grants.{active_in-some}
use pi_ghost.Wisp.Arbiter.Messages.{IsExpected}
use pi_ghost.Wisp.Arbiter.Turns.{
  IsDue, claim-IsIn, check_heartbeats-Follows, force_out-IsIn, evicting_in-some, notified,
  notified-IsIn,
}
use pi_ghost.Wisp.Arbiter.Service.{
  IsServed, maybe_grant_next_queued-IsServed, grant_slot-taken, kept-IsServed,
}
use pi_ghost.Wisp.Arbiter.Waiting.{
  offered-IsServed, handle_disconnect-IsServed, handle_ready_for_rt-IsServed,
  handle_grant_decline-IsServed, handle_heartbeat-IsServed, handle_activate_request-IsServed,
  handle_connect-IsServed, handle_dmabuf_announce-IsServed,
}

is_queued-claimed :
    (ss : List Session) (i fd j : ℕ)
    → is_queued (get_or (update_slots ss i (claimed fd)) j free_slot) ≡ true
    → is_queued (get_or ss j free_slot) ≡ true
is_queued-claimed ss i fd j q = is_queued-update ss i j (claimed fd) (λ s l. ground arith) q

claim-IsServed :
    (cp : ControlPlane) (a : Arbiter) (fd : ℕ) (o : Option ℕ)
    → IsIn cp a
    → find_index is_free cp.table.slots ≡ o
    → IsServed cp
    → IsServed (accept_into cp fd (claim cp.table fd o))
claim-IsServed cp a fd none v e s = s
claim-IsServed cp a fd (some i) v e s =
    kept-IsServed cp (with_table cp (update cp.table i (claimed fd))) a v (claim-IsIn cp a fd i v e)
      (λ k. is_queued-claimed cp.table.slots i fd k) s

switch_to-IsServed :
    (cp : ControlPlane) (now : Timespec) (a : Arbiter) (idx : ℕ)
    → IsIn cp a
    → (slot_at cp.table idx).in_use ≡ true
    → IsServed cp
    → IsServed (switch_to cp now idx).1
switch_to-IsServed cp now a idx v h s =
    elim (Bool-cases (is_active_rt (slot_at cp.table idx).state)) [
      | inl e ↦ rw e s
      | inr e ↦ elim (Bool-cases (may_be_granted (slot_at cp.table idx).state)) [
        | inl g ↦ rw (e, g) (inl (grant_slot-taken cp now a idx v h))
        | inr g ↦ rw (e, g) s
      ]
    ]

switch_found-IsServed :
    (cp : ControlPlane) (now : Timespec) (a : Arbiter) (o : Option ℕ)
    → IsIn cp a
    → ((i : ℕ) → o ≡ some i → (slot_at cp.table i).in_use ≡ true)
    → IsServed cp
    → IsServed (switch_found cp now o).1
switch_found-IsServed cp now a none v h s = s
switch_found-IsServed cp now a (some i) v h s = switch_to-IsServed cp now a i v (h i refl) s

time_out-IsServed :
    (cp : ControlPlane) (now : Timespec) (a : Arbiter) (o : Option ℕ)
    → IsIn cp a
    → o ≡ active_in a
    → IsServed cp
    → IsServed (time_out cp now (check_active cp.table now o))
time_out-IsServed cp now a none v e s = s
time_out-IsServed cp now a (some i) v e s =
    elim (Bool-cases (timed_out now (slot_at cp.table i).last_heartbeat_monotonic)) [
      | inr l ↦ rw l s
      | inl l ↦ rw l (
          maybe_grant_next_queued-IsServed (notified cp i) now vacant
            (notified-IsIn cp i (subst (IsIn cp) (active_in-some a i e) v)))
    ]

force_evicting-IsServed :
    (cp : ControlPlane) (now : Timespec) (a : Arbiter) (o : Option ℕ)
    → IsIn cp a
    → o ≡ evicting_in a
    → IsServed cp
    → IsServed (force_evicting cp now o)
force_evicting-IsServed cp now a none v e s = s
force_evicting-IsServed cp now a (some i) v e s =
    elim (Bool-cases (deadline_passed now cp.eviction_deadline_monotonic)) [
      | inr l ↦ rw l s
      | inl l ↦ rw l (
          offered-IsServed (force_out cp i) now
            (force_out-IsIn cp i (subst (IsIn cp) (evicting_in-some a i e) v)))
    ]

tick-IsServed :
    (cp : ControlPlane) (now : Timespec) (a : Arbiter)
    → IsIn cp a
    → IsServed cp
    → IsServed (tick cp now)
tick-IsServed cp now a v s =
    let (b, ms, w, r) = check_heartbeats-Follows cp now a v in
    force_evicting-IsServed (check_heartbeats cp now) now b (check_heartbeats cp now).evicting_slot
      w w.evicting (time_out-IsServed cp now a cp.table.active_slot v v.active s)

handle_readable-IsServed :
    (cp : ControlPlane) (now : Timespec) (a : Arbiter) (idx : ℕ) (m : Received)
    → IsIn cp a
    → IsExpected cp idx m
    → m ≢ stopped
    → IsServed cp
    → IsServed (handle_readable cp now idx m)
handle_readable-IsServed cp now a idx lost v h n s = handle_disconnect-IsServed cp now a idx v h.0 s
handle_readable-IsServed cp now a idx oversized v h n s = s
handle_readable-IsServed cp now a idx (connect c) v h n s =
    handle_connect-IsServed cp now a idx v h.0 s (h.1 refl) (checked_connect c)
handle_readable-IsServed cp now a idx activate_request v h n s =
    handle_activate_request-IsServed cp now a idx v h.0 s
handle_readable-IsServed cp now a idx ready_for_rt v h n s =
    handle_ready_for_rt-IsServed cp now a idx v h.0 s
handle_readable-IsServed cp now a idx grant_decline v h n s =
    handle_grant_decline-IsServed cp now a idx v h.0 s
handle_readable-IsServed cp now a idx stopped v h n s = absurd (n refl)
handle_readable-IsServed cp now a idx heartbeat v h n s =
    handle_heartbeat-IsServed cp now a idx v h.0 s
handle_readable-IsServed cp now a idx disconnect v h n s =
    handle_disconnect-IsServed cp now a idx v h.0 s
handle_readable-IsServed cp now a idx (dmabuf_announce msg fds) v h n s =
    handle_dmabuf_announce-IsServed cp now a idx v h.0 s msg fds
handle_readable-IsServed cp now a idx malformed_announce v h n s = s
handle_readable-IsServed cp now a idx unexpected v h n s = s

abbrev pub IsStop : Event → Type 0
IsStop e = (idx : ℕ) × (e ≡ readable idx stopped)

-- Every event but STOPPED keeps it so that either the slot is taken or no session is QUEUED: a
-- waiting session never stands before a free slot. The control plane is in a state of the
-- specification, and a CONNECT is taken only of a session that does not hold the slot.
pub handle-IsServed :
    (cp : ControlPlane) (now : Timespec) (a : Arbiter) (e : Event)
    → IsIn cp a
    → IsDue cp e
    → ¬ IsStop e
    → IsServed cp
    → IsServed (handle cp now e)
handle-IsServed cp now a (accepted fd) v d n s =
    claim-IsServed cp a fd (find_index is_free cp.table.slots) v refl s
handle-IsServed cp now a (readable idx m) v d n s =
    handle_readable-IsServed cp now a idx m v d (λ e. n (idx, ap (readable idx) e)) s
handle-IsServed cp now a (hung_up idx) v d n s = handle_disconnect-IsServed cp now a idx v d s
handle-IsServed cp now a list_query v d n s = s
handle-IsServed cp now a (switch_query name) v d n s =
    switch_found-IsServed cp now a (find_by_client_id cp.table name) v
      (λ i e. ground (arith, find_index-found _ cp.table.slots i e)) s
handle-IsServed cp now a turn_ends v d n s = tick-IsServed cp now a v s
