-- ===== src/Wisp/Arbiter.antt =====
-- What the control plane of wisp/server promises of the real-time slot, without the sessions: one
-- holder at a time, which moves through warm-up, use and wind-down.
pub mod Views
pub mod Grants
pub mod Releases
pub mod Messages
pub mod Turns
pub mod Runs
pub mod Service
pub mod Waiting
pub mod Fairness
pub mod Stopped
pub mod Deadline
pub mod Handover
pub mod Heartbeat
pub mod Switch
use pi_ghost.Base.{ℕ, ◌≡◌, Bool, true, false, Option, none, some, if◌then◌else◌, ◌==◌}
use pi_ghost.Wisp.Types.{
  SessionState, granted_warmup, active_rt, evicting_cooperative, evicting_forced,
}
use pi_ghost.Wisp.Table.{Session, slot_at}
use pi_ghost.Wisp.Control.{ControlPlane}

pub data Arbiter : Type 0 where
  vacant : Arbiter
  warming running winding : ℕ → Arbiter

pub data Move : Arbiter → Arbiter → Type 0 where
  grants : (i : ℕ) → Move vacant (warming i)
  starts : (i : ℕ) → Move (warming i) (running i)
  gives_up : (i : ℕ) → Move (warming i) vacant
  evicts : (i : ℕ) → Move (running i) (winding i)
  ends : (i : ℕ) → Move (running i) vacant
  winds_up : (i : ℕ) → Move (winding i) vacant

-- What one event may do: nothing, one move, or the end of one hold and the grant to the next session.
pub data Turn : Arbiter → Arbiter → Type 0 where
  stays : {a : Arbiter} → Turn a a
  moves_on : {a b : Arbiter} → Move a b → Turn a b
  passes_on : {a : Arbiter} (i : ℕ) → Move a vacant → Turn a (warming i)

-- How one slot takes part.
pub data Role : Type 0 where
  bystander warms runs winds is_forced : Role

abbrev role_of_state : SessionState → Role
role_of_state granted_warmup = warms
role_of_state active_rt = runs
role_of_state evicting_cooperative = winds
role_of_state evicting_forced = is_forced
role_of_state _ = bystander

abbrev pub role_of : Bool → SessionState → Role
role_of true x = role_of_state x
role_of false x = bystander

abbrev pub role : ControlPlane → ℕ → Role
role cp j = role_of (slot_at cp.table j).in_use (slot_at cp.table j).state

abbrev pub role_in : Arbiter → ℕ → Role
role_in vacant j = bystander
role_in (warming i) j = if i == j then warms else bystander
role_in (running i) j = if i == j then runs else bystander
role_in (winding i) j = if i == j then winds else bystander

abbrev pub active_in : Arbiter → Option ℕ
active_in (running i) = some i
active_in _ = none

abbrev pub evicting_in : Arbiter → Option ℕ
evicting_in (winding i) = some i
evicting_in _ = none

-- The control plane is in the state `a` of the specification.
pub record IsIn (cp : ControlPlane) (a : Arbiter) : Type 0 where
  pub roles : (j : ℕ) → role cp j ≡ role_in a j
  pub active : cp.table.active_slot ≡ active_in a
  pub evicting : cp.evicting_slot ≡ evicting_in a

-- A state of the specification that one turn reaches from `a`.
abbrev pub Follows : Arbiter → ControlPlane → Type 0
Follows a cp = (b : Arbiter) × Turn a b × IsIn cp b
