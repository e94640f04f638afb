-- ===== src/Wisp/Session/Evicted.antt =====
-- An eviction, from the server's decision to the next session: control_plane.c and client_control.c.
use mathlib.Core.Path.{subst}
use pi_ghost.Base.{
  ℕ, ◌≡◌, ◌≢◌, ◌<◌, refl, sym, Bool, false, Option, none, some, arith, if_both, ◌==◌,
}
use Prim.Native.Nat.{◌^◌}
use pi_ghost.Wisp.Types.{Timespec, evict_grace_ms}
use pi_ghost.Wisp.Table.{
  SessionTable, names_slot, is_active_rt, slot_at, update, set_state, set_reclaimed,
}
use pi_ghost.Wisp.Types.{evicting_cooperative}
use pi_ghost.Wisp.Ring.{evict_client}
use pi_ghost.Wisp.Control.{
  ControlPlane, evict_pending, fd_of, grant_slot, evict_or_grant, begin_eviction, grant_target,
}
use pi_ghost.Wisp.Handlers.{handle_stopped, reclaim}
use pi_ghost.Wisp.Loop.{handle, readable}
use pi_ghost.Wisp.Arbiter.{running, warming, IsIn}
use pi_ghost.Wisp.Arbiter.Views.{get_or-update_apart}
use pi_ghost.Wisp.Arbiter.Grants.{begin_eviction-IsIn}
use pi_ghost.Wisp.Arbiter.Stopped.{winding-cooperative}
use pi_ghost.Wisp.Arbiter.Handover.{IsGrantable, handle_stopped-hands_over}
use pi_ghost.Wisp.Client.{Client, stopped_msg, publish}
use pi_ghost.Wisp.Client.Thread.{receive}
use pi_ghost.Wisp.Client.Stale.{publish-stale}
use pi_ghost.Wisp.Session.{received, delivered, last_sent, last_message}

some-inj : (k t : ℕ) → some k ≡ some t → k ≡ t
some-inj k t e = ground arith

evicts_other :
    (cp : ControlPlane) (now : Timespec) (i t : ℕ) (o : Option ℕ)
    → o ≡ some i
    → i ≢ t
    → evict_or_grant cp now t o ≡ begin_eviction cp now i t
evicts_other cp now i t none e h = ground arith
evicts_other cp now i t (some k) e h = rw (some-inj k i e, other) refl
  where
    other : (i == t) ≡ false
    other = ground (arith, λ (p : i ≡ t). h p)

grant_target-ring :
    (cp : ControlPlane) (t : ℕ) (o : Option ℕ)
    → o ≡ some t
    → IsGrantable (slot_at cp.table t)
    → (grant_target cp o).ring ≡ evict_client cp.ring
grant_target-ring cp t none e g = ground arith
grant_target-ring cp t (some k) e g = rw (some-inj k t e, g.0, g.1) refl

module _ (cp : ControlPlane) (now : Timespec) (i t : ℕ) (v : IsIn cp (running i)) (h : i ≢ t)
    (g : IsGrantable (slot_at cp.table t)) where
  asked-IsGrantable : IsGrantable (slot_at (begin_eviction cp now i t).table t)
  asked-IsGrantable =
      if_both (λ (x : SessionTable). IsGrantable (slot_at x t))
        (is_active_rt (slot_at cp.table i).state) _ cp.table
        (if_both (λ (x : SessionTable). IsGrantable (slot_at x t))
          (names_slot (update cp.table i (set_state evicting_cooperative)).active_slot i) _
          (update cp.table i (set_state evicting_cooperative)) moved moved)
        g
    where
      moved : IsGrantable (slot_at (update cp.table i (set_state evicting_cooperative)) t)
      moved =
          subst IsGrantable
            (sym (get_or-update_apart cp.table.slots i t (set_state evicting_cooperative) h)) g

  after_stopped : IsIn (handle_stopped (begin_eviction cp now i t) i) (warming t)
  after_stopped =
      handle_stopped-hands_over (begin_eviction cp now i t) i t (begin_eviction-IsIn cp now i t v)
        refl asked-IsGrantable

  ring_after : (handle_stopped (begin_eviction cp now i t) i).ring ≡ evict_client cp.ring
  ring_after =
      rw (winding-cooperative (begin_eviction cp now i t) i (begin_eviction-IsIn cp now i t v)) (
        grant_target-ring
          (record (reclaim (begin_eviction cp now i t) i) { pending_grant_target = none }) t
          (some t) refl
          (subst IsGrantable
            (sym (get_or-update_apart (begin_eviction cp now i t).table.slots i t set_reclaimed h))
            asked-IsGrantable))

-- The session `i` runs in the slot, and another one, `t`, that may be granted it is to have it. Then
-- the server's last message is EVICT_PENDING to `i`; a client that gets it is no longer active and
-- its last message is its answer STOPPED; with this answer `t` has the slot, in its warm-up; and a
-- client with the generation that the ring had while `i` ran publishes nothing any more.
pub evict-hands_over :
    (cp : ControlPlane) (now later : Timespec) (i t : ℕ) (attached : Bool) (fd : ℕ)
    (ctx stale : Client) (idx frame_id : ℕ)
    → IsIn cp (running i)
    → i ≢ t
    → IsGrantable (slot_at cp.table t)
    → cp.ring.generation < 2 ^ 32
    → stale.granted_generation ≡ cp.ring.generation
    → (last_sent (grant_slot cp now t).effects ≡ some (fd_of cp i, evict_pending evict_grace_ms))
      × ((receive attached (delivered (evict_pending evict_grace_ms) fd) ctx).active ≡ false)
      × (last_message (receive attached (delivered (evict_pending evict_grace_ms) fd) ctx).calls
          ≡ some stopped_msg)
      × IsIn (handle (grant_slot cp now t) later (readable i (received stopped_msg))) (warming t)
      × (publish later idx frame_id stale
            (handle (grant_slot cp now t) later (readable i (received stopped_msg))).ring
          ≡ (
            record stale { active = false },
            (handle (grant_slot cp now t) later (readable i (received stopped_msg))).ring,
          ))
evict-hands_over cp now later i t attached fd ctx stale idx frame_id v h g w e =
    rw (evicts_other cp now i t cp.table.active_slot v.active h) (
      refl,
      refl,
      refl,
      after_stopped cp now i t v h g,
      subst (λ r. publish later idx frame_id stale r ≡ (record stale { active = false }, r))
          (sym (ring_after cp now i t v h g))
          (publish-stale 1 later idx frame_id stale cp.ring w e (omega arith) (omega arith)),
    )
