-- ===== src/Wisp/Arbiter/Stopped.antt =====
-- handle_stopped of control_plane.c offers the slot to the pending target alone.
use pi_ghost.Base.{ℕ, ◌≡◌, refl, ap, ◌∙◌, true, Option, none, some, inl, inr, arith}
use pi_ghost.Wisp.Table.{slot_at, takes_rt, set_reclaimed}
use pi_ghost.Wisp.Queue.{is_queued}
use pi_ghost.Wisp.Control.{ControlPlane, grant_target}
use pi_ghost.Wisp.Handlers.{handle_stopped, reclaim, is_cooperative}
use pi_ghost.Wisp.Arbiter.{vacant, winding, IsIn}
use pi_ghost.Wisp.Arbiter.Views.{role-taken, get_or-update_apart}
use pi_ghost.Wisp.Arbiter.Releases.{reclaim-IsIn}
use pi_ghost.Wisp.Arbiter.Service.{IsServed}

pub winding-cooperative :
    (cp : ControlPlane) (idx : ℕ)
    → IsIn cp (winding idx)
    → is_cooperative (slot_at cp.table idx).state ≡ true
winding-cooperative cp idx v = ground (arith, v.roles idx)

no_target : (cp : ControlPlane) (o : Option ℕ) → o ≡ none → grant_target cp o ≡ cp
no_target cp none e = refl
no_target cp (some i) e = ground arith

-- STOPPED where no target is pending.
abbrev after_stop : ControlPlane → ℕ → ControlPlane
after_stop cp idx = record (reclaim cp idx) { pending_grant_target = none }

handle_stopped-reclaim :
    (cp : ControlPlane) (idx : ℕ)
    → IsIn cp (winding idx)
    → cp.pending_grant_target ≡ none
    → handle_stopped cp idx ≡ after_stop cp idx
handle_stopped-reclaim cp idx v p =
    rw (winding-cooperative cp idx v) (no_target (after_stop cp idx) cp.pending_grant_target p)

unserved :
    (cp dq : ControlPlane) (idx k : ℕ)
    → IsIn dq vacant
    → dq.table ≡ (reclaim cp idx).table
    → takes_rt (slot_at cp.table idx).state ≡ true
    → is_queued (slot_at cp.table k) ≡ true
    → ¬ IsServed dq
unserved cp dq idx k v e t q (inl taken) = ground (arith, role-taken dq.table.slots v.roles)
unserved cp dq idx k v e t q (inr none_waits) =
    ground (arith, none_waits k, ap is_queued (ap (λ x. slot_at x k) e ∙ same))
  where
    same : slot_at (reclaim cp idx).table k ≡ slot_at cp.table k
    same = get_or-update_apart cp.table.slots idx k set_reclaimed (λ i. ground arith)

-- After STOPPED of the session that winds down, with no pending target, the slot is free; so a
-- session that is QUEUED at that moment is left waiting for it.
pub handle_stopped-unserved :
    (cp : ControlPlane) (idx k : ℕ)
    → IsIn cp (winding idx)
    → cp.pending_grant_target ≡ none
    → is_queued (slot_at cp.table k) ≡ true
    → IsIn (handle_stopped cp idx) vacant × ¬ IsServed (handle_stopped cp idx)
handle_stopped-unserved cp idx k v p q =
    rw (handle_stopped-reclaim cp idx v p)
      (w, unserved cp (after_stop cp idx) idx k w refl (ground (arith, v.roles idx)) q)
  where
    w : IsIn (after_stop cp idx) vacant
    w =
        let r = reclaim-IsIn cp idx v in
        record { roles = r.roles; active = r.active; evicting = r.evicting }
