-- ===== src/Wisp/Arbiter/Turns.antt =====
-- wisps_control_plane_run follows the specification of the slot: connections, admin queries, the
-- two deadlines, and any sequence of events.
use mathlib.Core.Path.{subst}
use pi_ghost.Base.{
  ℕ, ◌≡◌, ◌⊎◌, ◌∙◌, refl, true, Option, none, some, inl, inr, arith, Bool-cases, Text,
}
use pi_ghost.Wisp.Types.{Timespec, negotiated}
use pi_ghost.Wisp.Table.{
  Session, SessionTable, free_slot, slot_at, update, set_state, set_reclaimed, mark_forced, claimed,
  claim, is_free, find_index, takes_rt, is_active_rt, check_active, timed_out, find_by_client_id,
  check_heartbeat_timeouts,
}
use pi_ghost.Wisp.Table
use pi_ghost.Wisp.Control.{
  ControlPlane, evict_and_kick, with_table, emit, sends, fd_of, deactivate_msg, liveness_timeout,
  may_be_granted,
}
use pi_ghost.Wisp.Loop.{
  accept, accept_into, handle_switch_query, switch_to, switch_found, check_heartbeats, time_out,
  force_evicting, force_out, deadline_passed, tick, Event, accepted, readable, hung_up, list_query,
  switch_query, turn_ends, handle,
}
use pi_ghost.Wisp.Arbiter.{
  Arbiter, vacant, warming, running, winding, ends, winds_up, Turn, stays, moves_on, passes_on,
  grants, active_in, evicting_in, IsIn, Follows,
}
use pi_ghost.Wisp.Arbiter.Views.{get_or-update, get_or-update_below, find_index-found}
use pi_ghost.Wisp.Arbiter.Grants.{
  maybe_grant_next_queued-Follows, grant_slot-Follows, active_in-some,
}
use pi_ghost.Wisp.Arbiter.Releases.{
  given_back, released-Follows, offered-Follows, evict_and_kick-IsIn, handle_disconnect-Follows,
}
use pi_ghost.Wisp.Arbiter.Messages.{emit-IsIn, IsExpected, handle_readable-Follows}

pub claim-IsIn :
    (cp : ControlPlane) (a : Arbiter) (fd i : ℕ)
    → IsIn cp a
    → find_index is_free cp.table.slots ≡ some i
    → IsIn (with_table cp (update cp.table i (claimed fd))) a
claim-IsIn cp a fd i v e = record {
  roles = λ j. ground (
    arith,
    get_or-update_below cp.table.slots i j (claimed fd)
        (find_index-found is_free cp.table.slots i e).0,
    find_index-found is_free cp.table.slots i e,
    v.roles j,
  );
  active = v.active;
  evicting = v.evicting;
}

claim-Follows :
    (cp : ControlPlane) (a : Arbiter) (fd : ℕ) (o : Option ℕ)
    → IsIn cp a
    → find_index is_free cp.table.slots ≡ o
    → Follows a (accept_into cp fd (claim cp.table fd o))
claim-Follows cp a fd none v e = (a, stays, emit-IsIn cp a _ v)
claim-Follows cp a fd (some i) v e = (a, stays, claim-IsIn cp a fd i v e)

accept-Follows : (cp : ControlPlane) (a : Arbiter) (fd : ℕ) → IsIn cp a → Follows a (accept cp fd)
accept-Follows cp a fd v = claim-Follows cp a fd (find_index is_free cp.table.slots) v refl

switch_to-Follows :
    (cp : ControlPlane) (now : Timespec) (a : Arbiter) (idx : ℕ)
    → IsIn cp a
    → (slot_at cp.table idx).in_use ≡ true
    → Follows a (switch_to cp now idx).1
switch_to-Follows cp now a idx v h = elim (Bool-cases (is_active_rt (slot_at cp.table idx).state)) [
  | inl e ↦ rw e (a, stays, v)
  | inr e ↦ elim (Bool-cases (may_be_granted (slot_at cp.table idx).state)) [
    | inl g ↦ rw (e, g) (grant_slot-Follows cp now a idx v h)
    | inr g ↦ rw (e, g) (a, stays, v)
  ]
]

switch_found-Follows :
    (cp : ControlPlane) (now : Timespec) (a : Arbiter) (o : Option ℕ)
    → IsIn cp a
    → ((i : ℕ) → o ≡ some i → (slot_at cp.table i).in_use ≡ true)
    → Follows a (switch_found cp now o).1
switch_found-Follows cp now a none v h = (a, stays, v)
switch_found-Follows cp now a (some i) v h = switch_to-Follows cp now a i v (h i refl)

handle_switch_query-Follows :
    (cp : ControlPlane) (now : Timespec) (a : Arbiter) (name : Text)
    → IsIn cp a
    → Follows a (handle_switch_query cp now name).1
handle_switch_query-Follows cp now a name v =
    switch_found-Follows cp now a (find_by_client_id cp.table name) v
      λ i e. ground (arith, find_index-found _ cp.table.slots i e)

-- The session whose heartbeats stopped.
pub dead-IsIn :
    (cp : ControlPlane) (idx : ℕ)
    → IsIn cp (running idx)
    → IsIn (with_table cp (Table.deactivate cp.table idx)) vacant
dead-IsIn cp idx v = record {
  roles = λ j. ground (
    arith,
    get_or-update cp.table.slots idx j (set_state negotiated) refl,
    v.roles j,
    v.roles idx,
  );
  active = ground (arith, v.active, v.roles idx);
  evicting = v.evicting;
}

abbrev pub notified : ControlPlane → ℕ → ControlPlane
notified cp i =
    let dead = evict_and_kick (with_table cp (Table.deactivate cp.table i)) in
    emit (sends (fd_of dead i) deactivate_msg) (emit (sends (fd_of dead i) liveness_timeout) dead)

pub notified-IsIn : (cp : ControlPlane) (i : ℕ) → IsIn cp (running i) → IsIn (notified cp i) vacant
notified-IsIn cp i v =
    emit-IsIn _ vacant _ (emit-IsIn _ vacant _ (evict_and_kick-IsIn _ vacant (dead-IsIn cp i v)))

-- One turn, and then no new session winds down.
abbrev Rested : Arbiter → ControlPlane → Type 0
Rested a cp = (b : Arbiter) × Turn a b × IsIn cp b × ((b ≡ a) ⊎ (evicting_in b ≡ none))

nobody_winds : {b : Arbiter} → Turn vacant b → evicting_in b ≡ none
nobody_winds stays = refl
nobody_winds (moves_on (grants i)) = refl
nobody_winds (passes_on i m) = refl

ended : (i : ℕ) (cp : ControlPlane) → Follows vacant cp → Rested (running i) cp
ended i cp (b, t, v) = (b, given_back (ends i) t, v, inr (nobody_winds t))

time_out-Follows :
    (cp : ControlPlane) (now : Timespec) (a : Arbiter) (o : Option ℕ)
    → IsIn cp a
    → o ≡ active_in a
    → Rested a (time_out cp now (check_active cp.table now o))
time_out-Follows cp now a none v e = (a, stays, v, inl refl)
time_out-Follows cp now a (some i) v e =
    elim (Bool-cases (timed_out now (slot_at cp.table i).last_heartbeat_monotonic)) [
      | inr l ↦ rw l (a, stays, v, inl refl)
      | inl l ↦
          rw (l, active_in-some a i e)
            (ended i _ (
              maybe_grant_next_queued-Follows (notified cp i) now vacant
                (notified-IsIn cp i (subst (IsIn cp) (active_in-some a i e) v))))
    ]

pub check_heartbeats-Follows :
    (cp : ControlPlane) (now : Timespec) (a : Arbiter)
    → IsIn cp a
    → Rested a (check_heartbeats cp now)
check_heartbeats-Follows cp now a v = time_out-Follows cp now a cp.table.active_slot v v.active

pub force_out-IsIn :
    (cp : ControlPlane) (idx : ℕ) → IsIn cp (winding idx) → IsIn (force_out cp idx) vacant
force_out-IsIn cp idx v = record {
  roles = λ j. ground (
    arith,
    get_or-update cp.table.slots idx j mark_forced refl,
    get_or-update (update cp.table idx mark_forced).slots idx j set_reclaimed refl,
    v.roles j,
    v.roles idx,
  );
  active = v.active;
  evicting = refl;
}

pub evicting_in-some : (a : Arbiter) (i : ℕ) → some i ≡ evicting_in a → a ≡ winding i
evicting_in-some vacant i e = ground arith
evicting_in-some (warming k) i e = ground arith
evicting_in-some (running k) i e = ground arith
evicting_in-some (winding k) i e = ground arith

force_evicting-Follows :
    (cp : ControlPlane) (now : Timespec) (a : Arbiter) (o : Option ℕ)
    → IsIn cp a
    → o ≡ evicting_in a
    → Follows a (force_evicting cp now o)
force_evicting-Follows cp now a none v e = (a, stays, v)
force_evicting-Follows cp now a (some i) v e =
    elim (Bool-cases (deadline_passed now cp.eviction_deadline_monotonic)) [
      | inr l ↦ rw l (a, stays, v)
      | inl l ↦
          rw (l, evicting_in-some a i e)
            (released-Follows _ (winds_up i) (
              offered-Follows (force_out cp i) now
                (force_out-IsIn cp i (subst (IsIn cp) (evicting_in-some a i e) v))))
    ]

tick-Follows :
    (cp : ControlPlane) (now : Timespec) (a : Arbiter) → IsIn cp a → Follows a (tick cp now)
tick-Follows cp now a v =
    let (b, t, w, r) = check_heartbeats-Follows cp now a v in
    elim r [
      | inr q ↦ rw (w.evicting ∙ q) (b, t, w)
      | inl q ↦
          let w' = subst (IsIn (check_heartbeats cp now)) q w in
          force_evicting-Follows (check_heartbeats cp now) now a
            (check_heartbeats cp now).evicting_slot w' w'.evicting
    ]

-- An event that the loop can see in this state.
abbrev pub IsDue : ControlPlane → Event → Type 0
IsDue cp (accepted fd) = Unit
IsDue cp (readable idx m) = IsExpected cp idx m
IsDue cp (hung_up idx) = (slot_at cp.table idx).in_use ≡ true
IsDue cp list_query = Unit
IsDue cp (switch_query name) = Unit
IsDue cp turn_ends = Unit

-- The control plane is in a state of the specification. An event, handled at any time, does one of
-- three things to the slot: it leaves it as it is; it makes one of the six moves; or it ends one
-- hold, by the end of a warm-up, a run or a wind-down, and grants the slot to the next session, which
-- then warms up. So no session runs without a warm-up, and none is wound down that does not run. The
-- event is of a session in use, and no CONNECT of a session that holds the slot.
pub handle-Follows :
    (cp : ControlPlane) (now : Timespec) (a : Arbiter) (e : Event)
    → IsIn cp a
    → IsDue cp e
    → Follows a (handle cp now e)
handle-Follows cp now a (accepted fd) v d = accept-Follows cp a fd v
handle-Follows cp now a (readable idx m) v d = handle_readable-Follows cp now a idx m v d
handle-Follows cp now a (hung_up idx) v d = handle_disconnect-Follows cp now a idx v d
handle-Follows cp now a list_query v d = (a, stays, v)
handle-Follows cp now a (switch_query name) v d = handle_switch_query-Follows cp now a name v
handle-Follows cp now a turn_ends v d = tick-Follows cp now a v
