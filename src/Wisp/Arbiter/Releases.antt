-- ===== src/Wisp/Arbiter/Releases.antt =====
-- The messages that end a turn in the slot, handled by control_plane.c, follow the specification.
use mathlib.Core.Path.{subst}
use pi_ghost.Base.{ℕ, ◌≡◌, ◌⊎◌, refl, true, false, List, [], ◌∷◌, inl, inr, arith, Bool-cases}
use pi_ghost.Wisp.Types.{
  Timespec, SessionState, negotiated, granted_warmup, active_rt, evicting_cooperative,
}
use pi_ghost.Wisp.Table.{slot_at, update, set_state, set_reclaimed, released, takes_rt, removed_fds}
use pi_ghost.Wisp.Control.{
  ControlPlane, finish_pending_grant, maybe_grant_next_queued, evict_and_kick,
}
use pi_ghost.Wisp.Handlers.{handle_disconnect, reclaim, wind_up, drop_slot, close_all, close_slot}
use pi_ghost.Wisp.Arbiter.{
  Arbiter, vacant, warming, running, winding, Move, gives_up, ends, winds_up, Turn, stays, moves_on,
  passes_on, grants, role_of, role_in, IsIn, Follows,
}
use pi_ghost.Wisp.Arbiter.Views.{get_or-update}
use pi_ghost.Wisp.Arbiter.Grants.{
  taken_unless_vacant, finish_pending_grant-Follows, maybe_grant_next_queued-Follows,
}

-- A session gives the slot back, and then it is granted to another one or to none.
pub given_back : {a b : Arbiter} → Move a vacant → Turn vacant b → Turn a b
given_back m stays = moves_on m
given_back m (moves_on (grants i)) = passes_on i m
given_back m (passes_on i n) = passes_on i m

pub released-Follows :
    {a : Arbiter} (cp : ControlPlane) → Move a vacant → Follows vacant cp → Follows a cp
released-Follows cp m (b, t, v) = (b, given_back m t, v)

-- A slot that the pending target got is not offered to the queue.
kept_or_offered :
    {b : Arbiter} (cp : ControlPlane) (now : Timespec)
    → Turn vacant b
    → IsIn cp b
    → Follows vacant (maybe_grant_next_queued cp now)
kept_or_offered cp now stays v = maybe_grant_next_queued-Follows cp now vacant v
kept_or_offered cp now (moves_on (grants i)) v =
    rw (taken_unless_vacant cp (warming i) v (λ e. ground arith))
      (warming i, moves_on (grants i), v)
kept_or_offered cp now (passes_on i m) v =
    rw (taken_unless_vacant cp (warming i) v (λ e. ground arith)) (warming i, passes_on i m, v)

-- A slot is offered to the pending target and then to the queue.
pub offered-Follows :
    (cp : ControlPlane) (now : Timespec)
    → IsIn cp vacant
    → Follows vacant (maybe_grant_next_queued (finish_pending_grant cp) now)
offered-Follows cp now v =
    let (b, ms, w) = finish_pending_grant-Follows cp v in
    kept_or_offered (finish_pending_grant cp) now ms w

pub reclaim-IsIn :
    (cp : ControlPlane) (idx : ℕ) → IsIn cp (winding idx) → IsIn (reclaim cp idx) vacant
reclaim-IsIn cp idx v = record {
  roles = λ j. ground (arith, get_or-update cp.table.slots idx j set_reclaimed refl, v.roles j);
  active = v.active;
  evicting = ground (arith, v.evicting);
}

pub close_all-IsIn :
    (fds : List ℕ) (cp : ControlPlane) (a : Arbiter) → IsIn cp a → IsIn (close_all fds cp) a
close_all-IsIn [] cp a v = v
close_all-IsIn (fd ∷ fds) cp a v =
    close_all-IsIn fds _ a (record { roles = v.roles; active = v.active; evicting = v.evicting })

-- The removal of a session that does not hold the slot, in any state of it.
pub close_slot-idle :
    (cp : ControlPlane) (a : Arbiter) (idx : ℕ)
    → IsIn cp a
    → (slot_at cp.table idx).in_use ≡ true
    → takes_rt (slot_at cp.table idx).state ≡ false
    → IsIn (close_slot cp idx) a
close_slot-idle cp a idx v h r = record {
  roles =
      λ j. ground (arith, get_or-update cp.table.slots idx j released refl, v.roles j, v.roles idx);
  active = ground (arith, v.active);
  evicting = v.evicting;
}

-- The removal of the one that warms up.
close_slot-warming :
    (cp : ControlPlane) (idx : ℕ) → IsIn cp (warming idx) → IsIn (close_slot cp idx) vacant
close_slot-warming cp idx v = record {
  roles =
      λ j. ground (arith, get_or-update cp.table.slots idx j released refl, v.roles j, v.roles idx);
  active = ground (arith, v.active, v.roles idx);
  evicting = v.evicting;
}

close_slot-running :
    (cp : ControlPlane) (idx : ℕ) → IsIn cp (running idx) → IsIn (close_slot cp idx) vacant
close_slot-running cp idx v = record {
  roles = λ j. ground (
    arith,
    get_or-update cp.table.slots idx j (set_state negotiated) refl,
    get_or-update (update cp.table idx (set_state negotiated)).slots idx j released refl,
    v.roles j,
    v.roles idx,
  );
  active = ground (arith, v.active, v.roles idx);
  evicting = v.evicting;
}

close_slot-vacant : (cp : ControlPlane) (idx : ℕ) → IsIn cp vacant → IsIn (close_slot cp idx) vacant
close_slot-vacant cp idx v = record {
  roles =
      λ j. ground (arith, get_or-update cp.table.slots idx j released refl, v.roles j, v.roles idx);
  active = ground (arith, v.active, v.roles idx);
  evicting = v.evicting;
}

pub wind_up-idle :
    (cp : ControlPlane) (idx : ℕ) (x : SessionState) → takes_rt x ≡ false → wind_up cp idx x ≡ cp
wind_up-idle cp idx x h = ground arith

-- Which state of the specification a session in a state of the slot stands for.
abbrev pub Holding : Arbiter → ℕ → SessionState → Type 0
Holding a idx x =
    ((a ≡ warming idx) × (x ≡ granted_warmup))
    ⊎ (((a ≡ running idx) × (x ≡ active_rt)) ⊎ ((a ≡ winding idx) × (x ≡ evicting_cooperative)))

role-Holding :
    (a : Arbiter) (idx : ℕ) (x : SessionState)
    → role_of true x ≡ role_in a idx
    → takes_rt x ≡ true
    → Holding a idx x
role-Holding a idx x h t = ground arith

pub holding :
    (cp : ControlPlane) (a : Arbiter) (idx : ℕ)
    → IsIn cp a
    → (slot_at cp.table idx).in_use ≡ true
    → takes_rt (slot_at cp.table idx).state ≡ true
    → Holding a idx (slot_at cp.table idx).state
holding cp a idx v h t =
    role-Holding a idx _
      (subst (λ b. role_of b (slot_at cp.table idx).state ≡ role_in a idx) h (v.roles idx)) t

pub drop_slot-IsIn :
    (cp : ControlPlane) (a : Arbiter) (idx : ℕ)
    → IsIn (close_slot cp idx) a
    → IsIn (drop_slot cp idx) a
drop_slot-IsIn cp a idx v = close_all-IsIn (removed_fds (slot_at cp.table idx)) _ a v

pub evict_and_kick-IsIn : (cp : ControlPlane) (a : Arbiter) → IsIn cp a → IsIn (evict_and_kick cp) a
evict_and_kick-IsIn cp a v = record { roles = v.roles; active = v.active; evicting = v.evicting }

-- The session that holds the slot is gone.
pub holder_gone-IsIn :
    (cp : ControlPlane) (a : Arbiter) (idx : ℕ)
    → IsIn cp a
    → Holding a idx (slot_at cp.table idx).state
    → Move a vacant × IsIn (drop_slot (wind_up cp idx (slot_at cp.table idx).state) idx) vacant
holder_gone-IsIn cp a idx v (inl (p, e)) =
    rw (p, e)
      (gives_up idx, drop_slot-IsIn cp vacant idx (close_slot-warming cp idx (subst (IsIn cp) p v)))
holder_gone-IsIn cp a idx v (inr (inl (p, e))) =
    rw (p, e)
      (
        ends idx,
        drop_slot-IsIn (evict_and_kick cp) vacant idx (
            close_slot-running (evict_and_kick cp) idx
              (evict_and_kick-IsIn cp _ (subst (IsIn cp) p v))),
      )
holder_gone-IsIn cp a idx v (inr (inr (p, e))) =
    rw (p, e)
      (
        winds_up idx,
        drop_slot-IsIn (reclaim cp idx) vacant idx
            (close_slot-vacant (reclaim cp idx) idx (reclaim-IsIn cp idx (subst (IsIn cp) p v))),
      )

pub handle_disconnect-Follows :
    (cp : ControlPlane) (now : Timespec) (a : Arbiter) (idx : ℕ)
    → IsIn cp a
    → (slot_at cp.table idx).in_use ≡ true
    → Follows a (handle_disconnect cp now idx)
handle_disconnect-Follows cp now a idx v h =
    elim (Bool-cases (takes_rt (slot_at cp.table idx).state)) [
      | inl t ↦
          let (m, w) = holder_gone-IsIn cp a idx v (holding cp a idx v h t) in
          rw t (released-Follows _ m (offered-Follows _ now w))
      | inr t ↦
          rw (t, wind_up-idle cp idx _ t)
            (a, stays, drop_slot-IsIn cp a idx (close_slot-idle cp a idx v h t))
    ]
