-- ===== src/Wisp/Arbiter/Waiting.antt =====
-- Every event but STOPPED, handled by control_plane.c, keeps it so that no session waits for a slot
-- that nobody has.
use mathlib.Core.Path.{subst}
use pi_ghost.Base.{
  ℕ, ◌≡◌, refl, ◌∙◌, true, false, List, [], ◌∷◌, Option, none, some, inl, inr, arith, Bool-cases,
}
use pi_ghost.Wisp.Types.{Timespec, RenderMode, rejected, negotiated, ConnectMsg}
use pi_ghost.Wisp.Dmabuf.{DmabufAnnounceMsg, set_from_announce}
use pi_ghost.Wisp.Table.{
  Session, slot_at, takes_rt, rt_slot_taken, free_slot, update, set_state, released, removed_fds,
  is_active_rt,
}
use pi_ghost.Wisp.Queue.{is_queued}
use pi_ghost.Wisp.Control.{
  ControlPlane, Effect, emit, sends, mode_reply, with_table, fd_of, finish_pending_grant,
  maybe_grant_next_queued, negotiate_mode,
}
use pi_ghost.Wisp.Handlers.{
  handle_disconnect, handle_ready_for_rt, handle_grant_decline, handle_heartbeat,
  handle_activate_request, handle_connect, handle_dmabuf_announce, drop_slot, close_slot, close_all,
  close_set, set_heartbeat, negotiated_session, reject, answer_connect, enqueue, version_matches,
  is_warmup, is_negotiated,
}
use pi_ghost.Wisp.Arbiter.{Arbiter, vacant, running, IsIn, role_of, role}
use pi_ghost.Wisp.Arbiter.Views.{in_use-update, is_queued-update, role-taken}
use pi_ghost.Wisp.Arbiter.Grants.{taken_unless_vacant, finish_pending_grant-Follows}
use pi_ghost.Wisp.Arbiter.Releases.{close_slot-idle, wind_up-idle, holding, holder_gone-IsIn}
use pi_ghost.Wisp.Arbiter.Messages.{
  same_role-IsIn, emit-IsIn, activate-IsIn, decline-IsIn, warmup-warming, enqueue-IsIn,
}
use pi_ghost.Wisp.Arbiter.Service.{
  IsServed, maybe_grant_next_queued-IsServed, grant_slot-taken, kept-IsServed,
}

close_all-table : (fds : List ℕ) (cp : ControlPlane) → (close_all fds cp).table ≡ cp.table
close_all-table [] cp = refl
close_all-table (fd ∷ fds) cp = close_all-table fds _

-- The same table, and so the same queue.
pub same_table-IsServed : (cp dq : ControlPlane) → dq.table ≡ cp.table → IsServed cp → IsServed dq
same_table-IsServed cp dq e s = rw e s

pub offered-IsServed :
    (cp : ControlPlane) (now : Timespec)
    → IsIn cp vacant
    → IsServed (maybe_grant_next_queued (finish_pending_grant cp) now)
offered-IsServed cp now v =
    let (b, ms, w) = finish_pending_grant-Follows cp v in
    maybe_grant_next_queued-IsServed (finish_pending_grant cp) now b w

close_slot-queued :
    (cp : ControlPlane) (idx k : ℕ)
    → takes_rt (slot_at cp.table idx).state ≡ false
    → is_queued (slot_at (close_slot cp idx).table k) ≡ true
    → is_queued (slot_at cp.table k) ≡ true
close_slot-queued cp idx k t q =
    ground (arith, is_queued-update cp.table.slots idx k released (λ s l. ground arith))

pub handle_disconnect-IsServed :
    (cp : ControlPlane) (now : Timespec) (a : Arbiter) (idx : ℕ)
    → IsIn cp a
    → (slot_at cp.table idx).in_use ≡ true
    → IsServed cp
    → IsServed (handle_disconnect cp now idx)
handle_disconnect-IsServed cp now a idx v h s =
    elim (Bool-cases (takes_rt (slot_at cp.table idx).state)) [
      | inl t ↦
          rw t (offered-IsServed _ now (holder_gone-IsIn cp a idx v (holding cp a idx v h t)).1)
      | inr t ↦
          rw (t, wind_up-idle cp idx _ t)
            (same_table-IsServed (close_slot cp idx) (drop_slot cp idx)
              (close_all-table (removed_fds (slot_at cp.table idx)) (close_slot cp idx))
              (kept-IsServed cp (close_slot cp idx) a v (close_slot-idle cp a idx v h t)
                (λ k. close_slot-queued cp idx k t) s))
    ]

-- An update of one session that keeps its role and does not queue it.
same_role-IsServed :
    (cp : ControlPlane) (a : Arbiter) (idx : ℕ) (f : Session → Session)
    → IsIn cp a
    → (f free_slot).in_use ≡ false
    → role_of (f (slot_at cp.table idx)).in_use (f (slot_at cp.table idx)).state ≡ role cp idx
    → ((s : Session) → is_queued (f s) ≡ true → is_queued s ≡ true)
    → IsServed cp
    → IsServed (with_table cp (update cp.table idx f))
same_role-IsServed cp a idx f v h e q s =
    kept-IsServed cp (with_table cp (update cp.table idx f)) a v (same_role-IsIn cp a idx f v h e)
      (λ k. is_queued-update cp.table.slots idx k f q) s

module _ (cp : ControlPlane) (now : Timespec) (a : Arbiter) (idx : ℕ) (v : IsIn cp a)
    (h : (slot_at cp.table idx).in_use ≡ true) (s : IsServed cp) where
  pub handle_ready_for_rt-IsServed : IsServed (handle_ready_for_rt cp now idx)
  handle_ready_for_rt-IsServed = elim (Bool-cases (is_warmup (slot_at cp.table idx).state)) [
    | inr c ↦ rw c s
    | inl c ↦ rw c (
        inl (
          taken_unless_vacant _ (running idx)
            (activate-IsIn cp now idx (subst (IsIn cp) (warmup-warming cp now a idx v h c) v))
            (λ e. ground arith)))
  ]

  pub handle_grant_decline-IsServed : IsServed (handle_grant_decline cp now idx)
  handle_grant_decline-IsServed = elim (Bool-cases (is_warmup (slot_at cp.table idx).state)) [
    | inr c ↦ rw c s
    | inl c ↦ rw c (
        maybe_grant_next_queued-IsServed
          (with_table cp (update cp.table idx (set_state negotiated))) now vacant
          (decline-IsIn cp idx (subst (IsIn cp) (warmup-warming cp now a idx v h c) v)))
  ]

  pub handle_heartbeat-IsServed : IsServed (handle_heartbeat cp now idx)
  handle_heartbeat-IsServed = elim (Bool-cases (is_active_rt (slot_at cp.table idx).state)) [
    | inr c ↦ rw c s
    | inl c ↦ rw c (same_role-IsServed cp a idx (set_heartbeat now) v refl refl (λ x q. q) s)
  ]

  pub handle_activate_request-IsServed : IsServed (handle_activate_request cp now idx)
  handle_activate_request-IsServed =
      elim (Bool-cases (is_negotiated (slot_at cp.table idx).state)) [
        | inr c ↦ rw c s
        | inl c ↦ elim (Bool-cases (rt_slot_taken cp.table)) [
          | inl t ↦
              rw (c, t)
                (inl (
                  taken_unless_vacant (enqueue cp now idx) a (enqueue-IsIn cp now a idx v h c)
                    (λ e. ground (arith, role-taken cp.table.slots (subst (IsIn cp) e v).roles))))
          | inr t ↦ rw (c, t) (inl (grant_slot-taken cp now a idx v h))
        ]
      ]

  module _ (i : takes_rt (slot_at cp.table idx).state ≡ false) where
    reject-IsServed : (e : Effect) → IsServed (reject (emit e cp) now idx)
    reject-IsServed e =
        handle_disconnect-IsServed
          (with_table (emit e cp) (update cp.table idx (set_state rejected))) now a idx
          (same_role-IsIn (emit e cp) a idx (set_state rejected) (emit-IsIn cp a e v) refl
            (ground arith))
          (in_use-update cp.table.slots idx idx (set_state rejected) (λ x. refl) ∙ h)
          (same_role-IsServed (emit e cp) a idx (set_state rejected) (emit-IsIn cp a e v) refl
            (ground arith) (λ x q. ground arith) s)

    answer_connect-IsServed :
        (c : ConnectMsg) (o : Option RenderMode) → IsServed (answer_connect cp now idx c o)
    answer_connect-IsServed c none = reject-IsServed (sends (fd_of cp idx) (mode_reply none))
    answer_connect-IsServed c (some m) =
        same_role-IsServed cp a idx (negotiated_session c m) v refl (ground arith)
          (λ x q. ground arith) s

    pub handle_connect-IsServed : (c : ConnectMsg) → IsServed (handle_connect cp now idx c)
    handle_connect-IsServed c = elim (Bool-cases (version_matches c)) [
      | inl m ↦ rw m (answer_connect-IsServed c (negotiate_mode cp.supported_modes c.modes))
      | inr m ↦ rw m (reject-IsServed _)
    ]

  pub handle_dmabuf_announce-IsServed :
      (msg : DmabufAnnounceMsg) (fds : List (Option ℕ))
      → IsServed (handle_dmabuf_announce cp idx msg fds)
  handle_dmabuf_announce-IsServed msg fds =
      same_table-IsServed cp (handle_dmabuf_announce cp idx msg fds)
        (close_all-table (close_set (set_from_announce msg fds).0)
            (close_all (set_from_announce msg fds).1 cp)
          ∙ close_all-table (set_from_announce msg fds).1 cp)
        s
