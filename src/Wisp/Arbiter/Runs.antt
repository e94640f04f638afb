-- ===== src/Wisp/Arbiter/Runs.antt =====
-- Runs of wisps_control_plane_run as sequences of events, and what holds after each of them.
use pi_ghost.Base.{ℕ, zero, suc, ◌≡◌, ◌↔◌, refl, ap, get_or, Bool, true, List, [], ◌∷◌, some, arith}
use pi_ghost.Wisp.Types.{Timespec, RenderMode, active_rt, evicting_cooperative, evicting_forced}
use pi_ghost.Wisp.Table.{slot_at, takes_rt, repeat_slot, free_slot}
use pi_ghost.Wisp.Control.{ControlPlane}
use pi_ghost.Wisp.Loop.{new_plane, Event, handle}
use pi_ghost.Wisp.Arbiter.{Arbiter, vacant, IsIn, role_of}
use pi_ghost.Wisp.Arbiter.Releases.{holding}
use pi_ghost.Wisp.Arbiter.Turns.{IsDue, handle-Follows}

-- The control plane after the loop has handled some events.
abbrev pub run_events : ControlPlane → List (Timespec × Event) → ControlPlane
run_events cp [] = cp
run_events cp ((now, e) ∷ events) = run_events (handle cp now e) events

-- At its time, each event is of a session in use, and no CONNECT comes of a session that holds the
-- slot.
abbrev pub AreDue : ControlPlane → List (Timespec × Event) → Type 0
AreDue cp [] = Unit
AreDue cp ((now, e) ∷ events) = IsDue cp e × AreDue (handle cp now e) events

-- After such events, the control plane is in a state of the specification.
pub run_events-IsIn :
    (events : List (Timespec × Event)) (cp : ControlPlane) (a : Arbiter)
    → IsIn cp a
    → AreDue cp events
    → (b : Arbiter) × IsIn (run_events cp events) b
run_events-IsIn [] cp a v d = (a, v)
run_events-IsIn ((now, e) ∷ events) cp a v (d, ds) =
    let (b, t, w) = handle-Follows cp now a e v d in run_events-IsIn events (handle cp now e) b w ds

pub repeat_slot-free : (n j : ℕ) → get_or (repeat_slot n) j free_slot ≡ free_slot
repeat_slot-free zero j = refl
repeat_slot-free (suc n) zero = refl
repeat_slot-free (suc n) (suc j) = repeat_slot-free n j

pub new_plane-IsIn :
    (fd : ℕ) (dp : Bool) (modes : List RenderMode) → IsIn (new_plane fd dp modes) vacant
new_plane-IsIn fd dp modes = record {
  roles = λ j. ap (λ s. role_of s.in_use s.state) (repeat_slot-free 8 j);
  active = refl;
  evicting = refl;
}

-- A session in use that holds the slot, or waits to start in it, or winds down.
abbrev pub IsHolder : ControlPlane → ℕ → Type 0
IsHolder cp i = ((slot_at cp.table i).in_use ≡ true) × (takes_rt (slot_at cp.table i).state ≡ true)

same_holder :
    (cp : ControlPlane) (a : Arbiter) (i j : ℕ) → IsIn cp a → IsHolder cp i → IsHolder cp j → i ≡ j
same_holder cp a i j v h k = ground (arith, holding cp a i v h.0 h.1, holding cp a j v k.0 k.1)

-- From the start of the server on, as long as no CONNECT comes of a session that holds the slot: after
-- any sequence of events, each of a session in use, at most one session is in a state of the
-- real-time slot. The code does not refuse such a CONNECT, and after one two sessions can be.
pub run_events-one_holder :
    (fd : ℕ) (dp : Bool) (modes : List RenderMode) (events : List (Timespec × Event)) (i j : ℕ)
    → AreDue (new_plane fd dp modes) events
    → IsHolder (run_events (new_plane fd dp modes) events) i
    → IsHolder (run_events (new_plane fd dp modes) events) j
    → i ≡ j
run_events-one_holder fd dp modes events i j d h k =
    let (b, v) = run_events-IsIn events _ vacant (new_plane-IsIn fd dp modes) d in
    same_holder (run_events (new_plane fd dp modes) events) b i j v h k

-- From the start of the server on, as long as no CONNECT comes of a session that holds the slot: after
-- any sequence of events, each of a session in use, `active_slot` names a slot exactly if its session
-- is in use and ACTIVE_RT, and `evicting_slot` exactly if it is in use and EVICTING_COOPERATIVE; no
-- session is left in EVICTING_FORCED. The code does not refuse such a CONNECT, and after one
-- `evicting_slot` can name a session that is NEGOTIATED.
pub run_events-named_slots :
    (fd : ℕ) (dp : Bool) (modes : List RenderMode) (events : List (Timespec × Event)) (i : ℕ)
    → AreDue (new_plane fd dp modes) events
    → let last = run_events (new_plane fd dp modes) events in
      let s = slot_at last.table i in
      ((last.table.active_slot ≡ some i) ↔ ((s.in_use ≡ true) × (s.state ≡ active_rt)))
      × ((last.evicting_slot ≡ some i) ↔ ((s.in_use ≡ true) × (s.state ≡ evicting_cooperative)))
      × (¬ ((s.in_use ≡ true) × (s.state ≡ evicting_forced)))
run_events-named_slots fd dp modes events i d =
    let (b, v) = run_events-IsIn events _ vacant (new_plane-IsIn fd dp modes) d in
    ground (arith, v.roles i, v.active, v.evicting)
