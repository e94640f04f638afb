-- ===== src/Wisp/Arbiter/Messages.antt =====
-- Each message, handled by control_plane.c, follows the specification of the slot.
use mathlib.Core.Path.{subst}
use pi_ghost.Base.{
  ℕ, ◌≡◌, refl, ◌∙◌, Bool, true, false, List, Option, none, some, inl, inr, arith, Bool-cases,
}
use pi_ghost.Wisp.Types.{Timespec, RenderMode, negotiated, rejected, ConnectMsg}
use pi_ghost.Wisp.Dmabuf.{DmabufAnnounceMsg, set_from_announce}
use pi_ghost.Wisp.Table.{
  Session, SessionTable, free_slot, slot_at, update_slots, update, set_state, set_reclaimed,
  set_active, takes_rt, is_active_rt, rt_slot_taken,
}
use pi_ghost.Wisp.Table
use pi_ghost.Wisp.Control.{
  ControlPlane, with_table, emit, negotiate_mode, Effect, mode_reply, sends, fd_of,
}
use pi_ghost.Wisp.Handlers.{
  handle_stopped, handle_ready_for_rt, handle_grant_decline, handle_heartbeat,
  handle_activate_request, handle_connect, handle_dmabuf_announce, handle_readable, reclaim,
  close_set, set_queued, set_heartbeat, negotiated_session, reject, answer_connect, enqueue,
  checked_connect, version_matches, is_cooperative, is_warmup, is_negotiated, Received, lost,
  oversized, connect, activate_request, ready_for_rt, grant_decline, stopped, heartbeat, disconnect,
  dmabuf_announce, malformed_announce, unexpected,
}
use pi_ghost.Wisp.Arbiter.{
  Arbiter, vacant, warming, running, winding, starts, gives_up, winds_up, stays, moves_on, role_of,
  role, IsIn, Follows,
}
use pi_ghost.Wisp.Arbiter.Views.{get_or-update, in_use-update}
use pi_ghost.Wisp.Arbiter.Grants.{
  finish_pending_grant-Follows, maybe_grant_next_queued-Follows, grant_slot-Follows,
}
use pi_ghost.Wisp.Arbiter.Releases.{
  released-Follows, reclaim-IsIn, close_all-IsIn, holding, handle_disconnect-Follows,
}

-- An update that leaves the slot in its role.
pub same_role-IsIn :
    (cp : ControlPlane) (a : Arbiter) (idx : ℕ) (f : Session → Session)
    → IsIn cp a
    → (f free_slot).in_use ≡ false
    → role_of (f (slot_at cp.table idx)).in_use (f (slot_at cp.table idx)).state ≡ role cp idx
    → IsIn (with_table cp (update cp.table idx f)) a
same_role-IsIn cp a idx f v h e = record {
  roles = λ j. ground (arith, get_or-update cp.table.slots idx j f h, v.roles j);
  active = v.active;
  evicting = v.evicting;
}

pub emit-IsIn : (cp : ControlPlane) (a : Arbiter) (e : Effect) → IsIn cp a → IsIn (emit e cp) a
emit-IsIn cp a e v = record { roles = v.roles; active = v.active; evicting = v.evicting }

pub activate-IsIn :
    (cp : ControlPlane) (now : Timespec) (idx : ℕ)
    → IsIn cp (warming idx)
    → IsIn (with_table cp (Table.activate cp.table idx now)) (running idx)
activate-IsIn cp now idx v = record {
  roles = λ j. ground (
    arith,
    get_or-update cp.table.slots idx j (set_active now) refl,
    v.active,
    v.roles j,
    v.roles idx,
  );
  active = refl;
  evicting = v.evicting;
}

pub decline-IsIn :
    (cp : ControlPlane) (idx : ℕ)
    → IsIn cp (warming idx)
    → IsIn (with_table cp (update cp.table idx (set_state negotiated))) vacant
decline-IsIn cp idx v = record {
  roles = λ j. ground (
    arith,
    get_or-update cp.table.slots idx j (set_state negotiated) refl,
    v.roles j,
    v.roles idx,
  );
  active = v.active;
  evicting = v.evicting;
}

module _ (cp : ControlPlane) (now : Timespec) (a : Arbiter) (idx : ℕ) (v : IsIn cp a) where
  -- A message of a session that is in use.
  module _ (h : (slot_at cp.table idx).in_use ≡ true) where
    cooperative-winding : is_cooperative (slot_at cp.table idx).state ≡ true → a ≡ winding idx
    cooperative-winding c = ground (arith, holding cp a idx v h)

    pub warmup-warming : is_warmup (slot_at cp.table idx).state ≡ true → a ≡ warming idx
    warmup-warming c = ground (arith, holding cp a idx v h)

    handle_stopped-Follows : Follows a (handle_stopped cp idx)
    handle_stopped-Follows = elim (Bool-cases (is_cooperative (slot_at cp.table idx).state)) [
      | inr c ↦ rw c (a, stays, v)
      | inl c ↦
          rw (c, cooperative-winding c)
            (released-Follows _ (winds_up idx) (
              finish_pending_grant-Follows (reclaim cp idx)
                (reclaim-IsIn cp idx (subst (IsIn cp) (cooperative-winding c) v))))
    ]

    handle_ready_for_rt-Follows : Follows a (handle_ready_for_rt cp now idx)
    handle_ready_for_rt-Follows = elim (Bool-cases (is_warmup (slot_at cp.table idx).state)) [
      | inr c ↦ rw c (a, stays, v)
      | inl c ↦
          rw (c, warmup-warming c)
            (
              running idx,
              moves_on (starts idx),
              activate-IsIn cp now idx (subst (IsIn cp) (warmup-warming c) v),
            )
    ]

    handle_grant_decline-Follows : Follows a (handle_grant_decline cp now idx)
    handle_grant_decline-Follows = elim (Bool-cases (is_warmup (slot_at cp.table idx).state)) [
      | inr c ↦ rw c (a, stays, v)
      | inl c ↦
          rw (c, warmup-warming c)
            (released-Follows _ (gives_up idx) (
              maybe_grant_next_queued-Follows
                (with_table cp (update cp.table idx (set_state negotiated))) now vacant
                (decline-IsIn cp idx (subst (IsIn cp) (warmup-warming c) v))))
    ]

    handle_heartbeat-Follows : Follows a (handle_heartbeat cp now idx)
    handle_heartbeat-Follows = elim (Bool-cases (is_active_rt (slot_at cp.table idx).state)) [
      | inr c ↦ rw c (a, stays, v)
      | inl c ↦ rw c (a, stays, same_role-IsIn cp a idx (set_heartbeat now) v refl refl)
    ]

    pub enqueue-IsIn :
        is_negotiated (slot_at cp.table idx).state ≡ true → IsIn (enqueue cp now idx) a
    enqueue-IsIn c =
        emit-IsIn (with_table cp (update cp.table idx (set_queued now))) a _
          (same_role-IsIn cp a idx (set_queued now) v refl (ground arith))

    handle_activate_request-Follows : Follows a (handle_activate_request cp now idx)
    handle_activate_request-Follows =
        elim (Bool-cases (is_negotiated (slot_at cp.table idx).state)) [
          | inr c ↦ rw c (a, stays, v)
          | inl c ↦ elim (Bool-cases (rt_slot_taken cp.table)) [
            | inl t ↦ rw (c, t) (a, stays, enqueue-IsIn c)
            | inr t ↦ rw (c, t) (grant_slot-Follows cp now a idx v h)
          ]
        ]

  handle_dmabuf_announce-Follows :
      (msg : DmabufAnnounceMsg) (fds : List (Option ℕ))
      → Follows a (handle_dmabuf_announce cp idx msg fds)
  handle_dmabuf_announce-Follows msg fds = (
    a,
    stays,
    emit-IsIn _ a _ (
        close_all-IsIn (close_set (set_from_announce msg fds).0) _ a
          (close_all-IsIn (set_from_announce msg fds).1 cp a v)),
  )

  -- A CONNECT of a session that does not hold the slot.
  module _ (h : (slot_at cp.table idx).in_use ≡ true)
      (i : takes_rt (slot_at cp.table idx).state ≡ false) where
    reject-Follows : (e : Effect) → Follows a (reject (emit e cp) now idx)
    reject-Follows e =
        handle_disconnect-Follows
          (with_table (emit e cp) (update cp.table idx (set_state rejected))) now a idx
          (same_role-IsIn (emit e cp) a idx (set_state rejected) (emit-IsIn cp a e v) refl
            (ground arith))
          (in_use-update cp.table.slots idx idx (set_state rejected) (λ s. refl) ∙ h)

    answer_connect-Follows :
        (c : ConnectMsg) (o : Option RenderMode) → Follows a (answer_connect cp now idx c o)
    answer_connect-Follows c none = reject-Follows (sends (fd_of cp idx) (mode_reply none))
    answer_connect-Follows c (some m) = (
      a,
      stays,
      emit-IsIn _ a _ (same_role-IsIn cp a idx (negotiated_session c m) v refl (ground arith)),
    )

    handle_connect-Follows : (c : ConnectMsg) → Follows a (handle_connect cp now idx c)
    handle_connect-Follows c = elim (Bool-cases (version_matches c)) [
      | inl m ↦ rw m (answer_connect-Follows c (negotiate_mode cp.supported_modes c.modes))
      | inr m ↦ rw m (reject-Follows _)
    ]

abbrev pub is_connect : Received → Bool
is_connect (connect c) = true
is_connect _ = false

-- A message of a session in use, and a CONNECT only of one that does not hold the slot.
abbrev pub IsExpected : ControlPlane → ℕ → Received → Type 0
IsExpected cp idx m =
    ((slot_at cp.table idx).in_use ≡ true)
    × (is_connect m ≡ true → takes_rt (slot_at cp.table idx).state ≡ false)

pub handle_readable-Follows :
    (cp : ControlPlane) (now : Timespec) (a : Arbiter) (idx : ℕ) (m : Received)
    → IsIn cp a
    → IsExpected cp idx m
    → Follows a (handle_readable cp now idx m)
handle_readable-Follows cp now a idx lost v h = handle_disconnect-Follows cp now a idx v h.0
handle_readable-Follows cp now a idx oversized v h = (a, stays, v)
handle_readable-Follows cp now a idx (connect c) v h =
    handle_connect-Follows cp now a idx v h.0 (h.1 refl) (checked_connect c)
handle_readable-Follows cp now a idx activate_request v h =
    handle_activate_request-Follows cp now a idx v h.0
handle_readable-Follows cp now a idx ready_for_rt v h =
    handle_ready_for_rt-Follows cp now a idx v h.0
handle_readable-Follows cp now a idx grant_decline v h =
    handle_grant_decline-Follows cp now a idx v h.0
handle_readable-Follows cp now a idx stopped v h = handle_stopped-Follows cp now a idx v h.0
handle_readable-Follows cp now a idx heartbeat v h = handle_heartbeat-Follows cp now a idx v h.0
handle_readable-Follows cp now a idx disconnect v h = handle_disconnect-Follows cp now a idx v h.0
handle_readable-Follows cp now a idx (dmabuf_announce msg fds) v h =
    handle_dmabuf_announce-Follows cp now a idx v msg fds
handle_readable-Follows cp now a idx malformed_announce v h = (a, stays, v)
handle_readable-Follows cp now a idx unexpected v h = (a, stays, v)
