-- ===== src/Wisp/Session/Granted.antt =====
-- A grant, from the server to the first frame: control_plane.c and client_control.c.
use pi_ghost.Base.{
  ℕ, ◌≡◌, refl, ap, sym, ◌∙◌, Bool, true, false, ◌||◌, some, arith, if_both, ==_iff,
}
use pi_ghost.Wisp.Types.{Timespec, SessionState}
use pi_ghost.Wisp.Table.{slot_at}
use pi_ghost.Wisp.Ring.{Ring, publish_slot}
use pi_ghost.Wisp.Control.{ControlPlane, activate_grant, fd_of, do_grant}
use pi_ghost.Wisp.Handlers.{handle_ready_for_rt, is_warmup}
use pi_ghost.Wisp.Loop.{handle, readable}
use pi_ghost.Wisp.Arbiter.{vacant, warming, running, warms, role_of, role_in, IsIn}
use pi_ghost.Wisp.Arbiter.Grants.{do_grant-IsIn}
use pi_ghost.Wisp.Arbiter.Messages.{activate-IsIn}
use pi_ghost.Wisp.Client.{
  Client, ready_for_rt_msg, taken_if, with_ring, publish, signal, signals, does, time_ns,
}
use pi_ghost.Wisp.Client.Thread.{receive}
use pi_ghost.Wisp.Session.{received, delivered, last_sent, last_message}

do_grant-sent :
    (cp : ControlPlane) (t : ℕ)
    → last_sent (do_grant cp t).effects
      ≡ some (fd_of cp t, activate_grant (do_grant cp t).ring.generation (do_grant cp t).frame_fd)
do_grant-sent cp t =
    if_both
      (λ effects.
        last_sent effects
        ≡ some
            (fd_of cp t, activate_grant (do_grant cp t).ring.generation (do_grant cp t).frame_fd))
      cp.has_data_plane _ _ refl refl

role-warms : (b : Bool) (x : SessionState) → role_of b x ≡ warms → is_warmup x ≡ true
role-warms b x e = ground arith

handle_ready_for_rt-IsIn :
    (cp : ControlPlane) (now : Timespec) (t : ℕ)
    → IsIn cp (warming t)
    → IsIn (handle_ready_for_rt cp now t) (running t)
handle_ready_for_rt-IsIn cp now t v =
    rw (role-warms _ _ (v.roles t ∙ role_in-self t)) (activate-IsIn cp now t v)
  where
    role_in-self : (t : ℕ) → role_in (warming t) t ≡ warms
    role_in-self t = ground arith

-- The ring is the same, whether the message was expected or not.
handle_ready_for_rt-ring :
    (cp : ControlPlane) (now : Timespec) (t : ℕ) → (handle_ready_for_rt cp now t).ring ≡ cp.ring
handle_ready_for_rt-ring cp now t =
    if_both (λ d. d.ring ≡ cp.ring) (is_warmup (slot_at cp.table t).state) _ cp refl refl

-- The client with the grant: active, for this generation, and its last message is READY_FOR_RT.
abbrev pub IsReady : ℕ → ℕ → Client → Type 0
IsReady generation fd ctx =
    (ctx.active ≡ true)
    × (ctx.granted_generation ≡ generation)
    × (ctx.frame_fd ≡ some fd)
    × (last_message ctx.calls ≡ some ready_for_rt_msg)

taken-IsReady :
    (ring : Bool) (generation fd : ℕ) (ctx : Client)
    → ring ≡ true
    → IsReady generation fd (taken_if ring generation fd ctx).1
taken-IsReady true generation fd ctx e = (refl, refl, refl, refl)
taken-IsReady false generation fd ctx e = ground arith

receive-IsReady :
    (attached : Bool) (generation frame_fd fd : ℕ) (ctx : Client)
    → ctx.ring || attached ≡ true
    → IsReady generation fd
        (receive attached (delivered (activate_grant generation frame_fd) fd) ctx)
receive-IsReady attached generation frame_fd fd ctx e =
    taken-IsReady (ctx.ring || attached) generation fd (with_ring attached ctx) e

pub publish-current :
    (now : Timespec) (idx frame_id : ℕ) (ctx : Client) (ring : Ring)
    → ctx.active ≡ true
    → ctx.granted_generation ≡ ring.generation
    → publish now idx frame_id ctx ring
      ≡ (signal ctx.frame_fd ctx, publish_slot ring idx frame_id (time_ns now))
publish-current now idx frame_id ctx ring a g =
    rw (a, (==_iff ring.generation ctx.granted_generation).1 (sym g)) refl

-- The client after the grant to the slot `t`, and the control plane after the client's answer.
abbrev pub granted_client : ControlPlane → ℕ → Bool → ℕ → Client → Client
granted_client cp t attached fd ctx =
    receive attached
      (delivered (activate_grant (do_grant cp t).ring.generation (do_grant cp t).frame_fd) fd) ctx

abbrev pub started : ControlPlane → ℕ → Timespec → ControlPlane
started cp t now = handle (do_grant cp t) now (readable t (received ready_for_rt_msg))

-- The vacant slot is granted to a session in use, and the client can map the ring. Then the server's
-- last message is the grant to that session; the client's last message is its answer READY_FOR_RT;
-- with this answer the session runs in the slot; and the frame that the client publishes then goes
-- into the server's ring, with one signal.
pub grant-starts :
    (cp : ControlPlane) (t : ℕ) (attached : Bool) (fd : ℕ) (ctx : Client) (now : Timespec)
    (idx frame_id : ℕ)
    → IsIn cp vacant
    → (slot_at cp.table t).in_use ≡ true
    → ctx.ring || attached ≡ true
    → (last_sent (do_grant cp t).effects
        ≡ some
            (fd_of cp t, activate_grant (do_grant cp t).ring.generation (do_grant cp t).frame_fd))
      × (last_message (granted_client cp t attached fd ctx).calls ≡ some ready_for_rt_msg)
      × IsIn (started cp t now) (running t)
      × (publish now idx frame_id (granted_client cp t attached fd ctx) (started cp t now).ring ≡ (
        does signals (granted_client cp t attached fd ctx),
        publish_slot (started cp t now).ring idx frame_id (time_ns now),
      ))
grant-starts cp t attached fd ctx now idx frame_id v u e =
    let (a, g, f, m) =
      receive-IsReady attached (do_grant cp t).ring.generation (do_grant cp t).frame_fd fd ctx e in
    let r = handle_ready_for_rt-ring (do_grant cp t) now t in
    let client : Client = granted_client cp t attached fd ctx in
    (
      do_grant-sent cp t,
      m,
      handle_ready_for_rt-IsIn (do_grant cp t) now t (do_grant-IsIn cp t v u),
      publish-current now idx frame_id client (started cp t now).ring a
            (g ∙ sym (ap (λ (x : Ring). x.generation) r))
          ∙ ap
              (λ o.
                (signal o client, publish_slot (started cp t now).ring idx frame_id (time_ns now)))
              f,
    )
