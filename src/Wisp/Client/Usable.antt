-- ===== src/Wisp/Client/Usable.antt =====
-- The threads of an application on a client of client_control.c: what they may rely on while it is
-- active.
use mathlib.Core.Path.{subst}
use pi_ghost.Base.{
  ℕ, ◌≡◌, ◌||◌, refl, sym, Bool, true, false, inl, inr, List, [], ◌∷◌, Option, none, some, All,
  Bool-cases, if◌then◌else◌, Text, if_both, not, ◌&&◌, ◌==◌,
}
use pi_ghost.Wisp.Types.{Timespec, RenderMode}
use pi_ghost.Wisp.Dmabuf.{DmabufDesc}
use pi_ghost.Wisp.Ring.{Ring}
use pi_ghost.Wisp.Client.{
  Client, ClientCall, connect_msg, activate_request_msg, signal, send, close_if, take_grant,
  taken_if, with_ring, close_old, store_fd, grant_steps, with_generation, activated, handle_grant,
  publish, announce,
}
use pi_ghost.Wisp.Client.Thread.{
  activate_grant, activate_deny, deactivate, evict_pending, version_mismatch, other, dmabuf_ack,
  mode_reply, Incoming, got, failed, Control, before_message, send_heartbeat, is_due, heartbeat_ms,
  retry_activate_ms, receive,
}
use pi_ghost.Wisp.Client.Connect.{
  Attempt, Connected, session, no_session, connect_client, handshake, negotiate, ask, first_grant,
  granted_or_not, try_connect, new_client, connect_request,
}

-- If it is active, the ring is mapped and there is a descriptor for the signal.
abbrev HasFrames : (active ring : Bool) → (frame_fd : Option ℕ) → Type 0
HasFrames false ring frame_fd = Unit
HasFrames true false frame_fd = ⊥
HasFrames true true none = ⊥
HasFrames true true (some fd) = Unit

abbrev pub IsUsable : Client → Type 0
IsUsable ctx = HasFrames ctx.active ctx.ring ctx.frame_fd

-- The states after each of some steps.
abbrev after_each : List (Client → Client) → Client → List Client
after_each [] ctx = []
after_each (step ∷ steps) ctx = step ctx ∷ after_each steps (step ctx)

-- The states that another thread may see while wispc_handle_grant runs.
abbrev stages_if : Bool → ℕ → ℕ → Client → List Client
stages_if ring generation fd ctx = if ring then after_each (grant_steps generation fd) ctx else []

abbrev grant_stages : ℕ → ℕ → Client → List Client
grant_stages generation fd ctx = stages_if ctx.ring generation fd ctx

abbrev pub seen : Bool → Incoming → Client → List Client
seen attached (got (activate_grant generation) (some fd)) ctx =
    ctx ∷ with_ring attached ctx ∷ grant_stages generation fd (with_ring attached ctx)
seen attached incoming ctx = ctx ∷ []

-- What the threads do with a client until wispc_disconnect.
pub data Step : Client → Client → Type 0 where
  sends_due :
      (now : Timespec) (ring : Ring) (c : Control)
      → Step c.client (before_message now ring c).client
  receives :
      (attached : Bool) (incoming : Incoming) (ctx : Client)
      → Step ctx (receive attached incoming ctx)
  publishes :
      (now : Timespec) (idx frame_id : ℕ) (ring : Ring) (ctx : Client)
      → Step ctx (publish now idx frame_id ctx ring).0
  announces :
      (fds : List ℕ) (desc : List DmabufDesc) (ctx : Client) → Step ctx (announce fds desc ctx)

pub data Steps : Client → Client → Type 0 where
  no_step : {c : Client} → Steps c c
  next_step : {c d e : Client} → Step c d → Steps d e → Steps c e

more_ring : (a r attached : Bool) (f : Option ℕ) → HasFrames a r f → HasFrames a (r || attached) f
more_ring false r attached f u = tt
more_ring true false attached f u = absurd u
more_ring true true attached none u = absurd u
more_ring true true attached (some fd) u = tt

more_fd : (a r : Bool) (f : Option ℕ) (fd : ℕ) → HasFrames a r f → HasFrames a r (some fd)
more_fd false r f fd u = tt
more_fd true false f fd u = absurd u
more_fd true true none fd u = absurd u
more_fd true true (some k) fd u = tt

with_ring-IsUsable :
    (attached : Bool) (ctx : Client) → IsUsable ctx → IsUsable (with_ring attached ctx)
with_ring-IsUsable attached ctx u = more_ring ctx.active ctx.ring attached ctx.frame_fd u

-- The close of the old descriptor changes neither field.
close_if-fields :
    (o : Option ℕ) (ctx : Client)
    → ((close_if o ctx).active ≡ ctx.active) × ((close_if o ctx).ring ≡ ctx.ring)
close_if-fields none ctx = (refl, refl)
close_if-fields (some fd) ctx = (refl, refl)

close_old-IsUsable : (ctx : Client) → IsUsable ctx → IsUsable (close_old ctx)
close_old-IsUsable ctx u = keeps ctx.frame_fd u
  where
    keeps : (o : Option ℕ) → IsUsable ctx → IsUsable (close_if o ctx)
    keeps none u = u
    keeps (some fd) u = u

stored-IsUsable : (fd : ℕ) (ctx : Client) → IsUsable ctx → IsUsable (store_fd fd (close_old ctx))
stored-IsUsable fd ctx u =
    let (a, r) = close_if-fields ctx.frame_fd ctx in
    rw (a, r) (more_fd ctx.active ctx.ring ctx.frame_fd fd u)

activated-IsUsable :
    (fd generation : ℕ) (ctx : Client)
    → ctx.ring ≡ true
    → IsUsable (activated (with_generation generation (store_fd fd (close_old ctx))))
activated-IsUsable fd generation ctx e =
    let (a, r) = close_if-fields ctx.frame_fd ctx in rw (r, e) tt

stages-IsUsable :
    (generation fd : ℕ) (ctx : Client)
    → IsUsable ctx
    → All IsUsable (grant_stages generation fd ctx)
stages-IsUsable generation fd ctx u = elim (Bool-cases ctx.ring) [
  | inl e ↦
      let stored = stored-IsUsable fd ctx u in
      let active = activated-IsUsable fd generation ctx e in
      subst (λ b. All IsUsable (stages_if b generation fd ctx)) (sym e)
        (close_old-IsUsable ctx u, (stored, (stored, (active, (active, tt)))))
  | inr e ↦ subst (λ b. All IsUsable (stages_if b generation fd ctx)) (sym e) tt
]

take_grant-IsUsable :
    (generation : ℕ) (frame_fd : Option ℕ) (ctx : Client)
    → IsUsable ctx
    → IsUsable (take_grant generation frame_fd ctx).1
take_grant-IsUsable generation none ctx u = u
take_grant-IsUsable generation (some fd) ctx u = elim (Bool-cases ctx.ring) [
  | inl e ↦
      subst (λ b. IsUsable (taken_if b generation fd ctx).1) (sym e)
        (activated-IsUsable fd generation ctx e)
  | inr e ↦ subst (λ b. IsUsable (taken_if b generation fd ctx).1) (sym e) u
]

handle_grant-IsUsable :
    (attached : Bool) (generation : ℕ) (fd : Option ℕ) (ctx : Client)
    → IsUsable ctx
    → IsUsable (handle_grant attached generation fd ctx).1
handle_grant-IsUsable attached generation fd ctx u =
    take_grant-IsUsable generation fd (with_ring attached ctx) (with_ring-IsUsable attached ctx u)

seen-IsUsable :
    (attached : Bool) (incoming : Incoming) (ctx : Client)
    → IsUsable ctx
    → All IsUsable (seen attached incoming ctx)
seen-IsUsable attached (got (activate_grant generation) (some fd)) ctx u = (
  u,
  (
    with_ring-IsUsable attached ctx u,
    stages-IsUsable generation fd (with_ring attached ctx) (with_ring-IsUsable attached ctx u),
  ),
)
seen-IsUsable attached (got (activate_grant generation) none) ctx u = (u, tt)
seen-IsUsable attached (got activate_deny fd) ctx u = (u, tt)
seen-IsUsable attached (got deactivate fd) ctx u = (u, tt)
seen-IsUsable attached (got evict_pending fd) ctx u = (u, tt)
seen-IsUsable attached (got version_mismatch fd) ctx u = (u, tt)
seen-IsUsable attached (got other fd) ctx u = (u, tt)
seen-IsUsable attached (got (dmabuf_ack accepted) fd) ctx u = (u, tt)
seen-IsUsable attached (got (mode_reply mode) fd) ctx u = (u, tt)
seen-IsUsable attached (failed reply) ctx u = (u, tt)

receive-IsUsable :
    (attached : Bool) (incoming : Incoming) (ctx : Client)
    → IsUsable ctx
    → IsUsable (receive attached incoming ctx)
receive-IsUsable attached (got (activate_grant generation) fd) ctx u =
    handle_grant-IsUsable attached generation fd ctx u
receive-IsUsable attached (got (dmabuf_ack accepted) fd) ctx u =
    if_both IsUsable (accepted == 0) _ _ u u
receive-IsUsable attached (got activate_deny fd) ctx u = u
receive-IsUsable attached (got deactivate fd) ctx u = tt
receive-IsUsable attached (got evict_pending fd) ctx u = tt
receive-IsUsable attached (got version_mismatch fd) ctx u = u
receive-IsUsable attached (got other fd) ctx u = u
receive-IsUsable attached (got (mode_reply mode) fd) ctx u = u
receive-IsUsable attached (failed reply) ctx u = u

signal-IsUsable : (o : Option ℕ) (ctx : Client) → IsUsable ctx → IsUsable (signal o ctx)
signal-IsUsable none ctx u = u
signal-IsUsable (some fd) ctx u = u

before_message-IsUsable :
    (now : Timespec) (ring : Ring) (c : Control)
    → IsUsable c.client
    → IsUsable (before_message now ring c).client
before_message-IsUsable now ring c u =
    let heard =
      if_both (λ d. IsUsable d.client) (c.client.active && is_due heartbeat_ms now c.last_heartbeat)
        _ c u u in
    if_both (λ d. IsUsable d.client)
      (not (send_heartbeat now ring c).client.active
        && is_due retry_activate_ms now (send_heartbeat now ring c).last_activate_attempt)
      _ (send_heartbeat now ring c) heard heard

publish-IsUsable :
    (now : Timespec) (idx frame_id : ℕ) (ctx : Client) (ring : Ring)
    → IsUsable ctx
    → IsUsable (publish now idx frame_id ctx ring).0
publish-IsUsable now idx frame_id ctx ring u =
    if_both (λ (p : Client × Ring). IsUsable p.0) ctx.active _ (ctx, ring)
      (if_both (λ (p : Client × Ring). IsUsable p.0) (ring.generation == ctx.granted_generation) _ _
        (signal-IsUsable ctx.frame_fd ctx u) tt)
      u

Step-IsUsable : {c d : Client} → Step c d → IsUsable c → IsUsable d
Step-IsUsable (sends_due now ring c) u = before_message-IsUsable now ring c u
Step-IsUsable (receives attached incoming ctx) u = receive-IsUsable attached incoming ctx u
Step-IsUsable (publishes now idx frame_id ring ctx) u = publish-IsUsable now idx frame_id ctx ring u
Step-IsUsable (announces fds desc ctx) u = u

Steps-IsUsable : {c d : Client} → Steps c d → IsUsable c → IsUsable d
Steps-IsUsable no_step u = u
Steps-IsUsable (next_step s ss) u = Steps-IsUsable ss (Step-IsUsable s u)

-- A session that wispc_connect gives is usable.
HasUsable : Connected → Type 0
HasUsable (session ctx) = IsUsable ctx
HasUsable (no_session calls) = Unit

granted-HasUsable : (r : Bool × Client) → IsUsable r.1 → HasUsable (granted_or_not r)
unfolding HasUsable
granted-HasUsable (true, ctx) u = u
granted-HasUsable (false, ctx) u = tt

first_grant-HasUsable :
    (attached : Bool) (second : Incoming) (ctx : Client)
    → IsUsable ctx
    → HasUsable (first_grant attached second ctx)
unfolding HasUsable
first_grant-HasUsable attached (got (activate_grant generation) fd) ctx u =
    granted-HasUsable (handle_grant attached generation fd ctx)
      (handle_grant-IsUsable attached generation fd ctx u)
first_grant-HasUsable attached (got activate_deny fd) ctx u = u
first_grant-HasUsable attached (got deactivate fd) ctx u = u
first_grant-HasUsable attached (got evict_pending fd) ctx u = u
first_grant-HasUsable attached (got version_mismatch fd) ctx u = u
first_grant-HasUsable attached (got other fd) ctx u = u
first_grant-HasUsable attached (got (dmabuf_ack accepted) fd) ctx u = u
first_grant-HasUsable attached (got (mode_reply mode) fd) ctx u = u
first_grant-HasUsable attached (failed reply) ctx u = u

module _ (attached : Bool) (second : Incoming) where
  asked : (ctx : Client) → IsUsable ctx → HasUsable (ask attached second ctx)
  asked ctx u = first_grant-HasUsable attached second (send activate_request_msg ctx) u

  negotiate-HasUsable :
      (first : Incoming) (ctx : Client)
      → IsUsable ctx
      → HasUsable (negotiate attached first second ctx)
  unfolding HasUsable
  negotiate-HasUsable (got (mode_reply (some mode)) fd) ctx u = asked (record ctx { mode = mode }) u
  negotiate-HasUsable (got (mode_reply none) fd) ctx u = tt
  negotiate-HasUsable (got version_mismatch fd) ctx u = tt
  negotiate-HasUsable (got (activate_grant generation) fd) ctx u = asked ctx u
  negotiate-HasUsable (got activate_deny fd) ctx u = asked ctx u
  negotiate-HasUsable (got deactivate fd) ctx u = asked ctx u
  negotiate-HasUsable (got evict_pending fd) ctx u = asked ctx u
  negotiate-HasUsable (got other fd) ctx u = asked ctx u
  negotiate-HasUsable (got (dmabuf_ack accepted) fd) ctx u = asked ctx u
  negotiate-HasUsable (failed version_mismatch) ctx u = tt
  negotiate-HasUsable (failed (activate_grant generation)) ctx u = asked ctx u
  negotiate-HasUsable (failed activate_deny) ctx u = asked ctx u
  negotiate-HasUsable (failed deactivate) ctx u = asked ctx u
  negotiate-HasUsable (failed evict_pending) ctx u = asked ctx u
  negotiate-HasUsable (failed other) ctx u = asked ctx u
  negotiate-HasUsable (failed (dmabuf_ack accepted)) ctx u = asked ctx u
  negotiate-HasUsable (failed (mode_reply mode)) ctx u = asked ctx u

  handshake-HasUsable :
      (first : Incoming) (name : Text) (modes : List RenderMode)
      (socket : Option ℕ × List ClientCall)
      → HasUsable (handshake attached first second name modes socket)
  unfolding HasUsable
  handshake-HasUsable first name modes (none, calls) = tt
  handshake-HasUsable first name modes (some fd, calls) =
      negotiate-HasUsable first
        (send (connect_msg (connect_request name modes)) (new_client fd calls)) tt

-- Whatever the threads of the application do with a session, in any order, and whatever the server
-- sends: whenever another thread can look, also between two steps of wispc_handle_grant, an active
-- session has the ring mapped and `frame_fd` set. It is not stated that the descriptor is open: a
-- second grant to a session that is still active closes it one step before the new one is stored.
pub seen-Steps :
    (attempts : ℕ → Attempt) (attached : Bool) (first second : Incoming) (name : Text)
    (modes : List RenderMode) (start ctx : Client) (attached' : Bool) (incoming : Incoming)
    → connect_client attempts attached first second name modes ≡ session start
    → Steps start ctx
    → All IsUsable (seen attached' incoming ctx)
unfolding HasUsable
seen-Steps attempts attached first second name modes start ctx attached' incoming e ss =
    seen-IsUsable attached' incoming ctx (
      Steps-IsUsable ss (
        subst HasUsable e
          (handshake-HasUsable attached second first name modes (try_connect attempts 0 100 []))))
