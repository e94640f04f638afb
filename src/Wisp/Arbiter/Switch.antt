-- ===== src/Wisp/Arbiter/Switch.antt =====
-- The SWITCH query of the admin thread, in control_plane.c.
use mathlib.Core.Path.{subst}
use pi_ghost.Base.{
  ℕ, ◌≡◌, ◌⊎◌, ◌≢◌, ◌==◌, sym, refl, true, false, Option, none, some, inl, inr, arith, Bool-cases,
  Text,
}
use pi_ghost.Wisp.Types.{Timespec, active_rt}
use pi_ghost.Wisp.Table.{slot_at, is_active_rt, rt_slot_taken, find_by_client_id}
use pi_ghost.Wisp.Control.{ControlPlane, may_be_granted, grant_or_remember, evict_or_grant}
use pi_ghost.Wisp.Loop.{
  SwitchResponse, switched, app_not_connected, app_not_switchable, switch_to, switch_found,
  handle_switch_query,
}
use pi_ghost.Wisp.Arbiter.{Arbiter, warming, IsIn}
use pi_ghost.Wisp.Arbiter.Grants.{do_grant-IsIn, rt_slot_taken-vacant}
use pi_ghost.Wisp.Arbiter.Views.{find_index-found}

-- Session `i` has the slot, is granted it, or is the pending target.
abbrev pub IsChosen : ControlPlane → ℕ → Type 0
IsChosen cp i =
    ((slot_at cp.table i).state ≡ active_rt)
    ⊎ (IsIn cp (warming i) ⊎ (cp.pending_grant_target ≡ some i))

grant_or_remember-IsChosen :
    (cp : ControlPlane) (a : Arbiter) (i : ℕ)
    → IsIn cp a
    → (slot_at cp.table i).in_use ≡ true
    → IsChosen (grant_or_remember cp i) i
grant_or_remember-IsChosen cp a i v h = elim (Bool-cases (rt_slot_taken cp.table)) [
  | inl t ↦ rw t (inr (inr refl))
  | inr t ↦
      rw t (inr (inl (do_grant-IsIn cp i (subst (IsIn cp) (rt_slot_taken-vacant cp a v t) v) h)))
]

evict_or_grant-IsChosen :
    (cp : ControlPlane) (now : Timespec) (a : Arbiter) (i : ℕ) (o : Option ℕ)
    → IsIn cp a
    → (slot_at cp.table i).in_use ≡ true
    → IsChosen (evict_or_grant cp now i o) i
evict_or_grant-IsChosen cp now a i none v h = grant_or_remember-IsChosen cp a i v h
evict_or_grant-IsChosen cp now a i (some k) v h = elim (Bool-cases (k == i)) [
  | inl e ↦ rw e (grant_or_remember-IsChosen cp a i v h)
  | inr e ↦ rw e (inr (inr refl))
]

-- The answer to a query for session `i` and what it says of the control plane after it: `ok` means
-- that the session is chosen, and a refusal that nothing has changed and why.
abbrev pub IsAnswered : ControlPlane → ℕ → SwitchResponse × ControlPlane → Type 0
IsAnswered cp i (switched, after) = IsChosen after i
IsAnswered cp i (app_not_connected, after) = ⊥
IsAnswered cp i (app_not_switchable, after) =
    (after ≡ cp)
    × ((slot_at cp.table i).state ≢ active_rt)
    × (may_be_granted (slot_at cp.table i).state ≡ false)

switch_to-IsAnswered :
    (cp : ControlPlane) (now : Timespec) (a : Arbiter) (i : ℕ)
    → IsIn cp a
    → (slot_at cp.table i).in_use ≡ true
    → IsAnswered cp i (switch_to cp now i)
switch_to-IsAnswered cp now a i v h = elim (Bool-cases (is_active_rt (slot_at cp.table i).state)) [
  | inl e ↦ rw e (inl (ground arith))
  | inr e ↦ elim (Bool-cases (may_be_granted (slot_at cp.table i).state)) [
    | inl g ↦ rw (e, g) (evict_or_grant-IsChosen cp now a i cp.table.active_slot v h)
    | inr g ↦ rw (e, g) (refl, (λ p. ground arith), g)
  ]
]

-- The answer to a SWITCH query for the first session of that name: `ok` means that it is ACTIVE_RT,
-- has just been granted the slot, or is the pending target, and a refusal that its state cannot be
-- granted and nothing has changed.
pub handle_switch_query-IsAnswered :
    (cp : ControlPlane) (now : Timespec) (a : Arbiter) (name : Text) (i : ℕ)
    → IsIn cp a
    → find_by_client_id cp.table name ≡ some i
    → IsAnswered cp i (handle_switch_query cp now name)
handle_switch_query-IsAnswered cp now a name i v e =
    subst (λ o. IsAnswered cp i (switch_found cp now o)) (sym e)
      (switch_to-IsAnswered cp now a i v (ground (arith, find_index-found _ cp.table.slots i e)))
