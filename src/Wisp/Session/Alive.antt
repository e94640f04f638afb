-- ===== src/Wisp/Session/Alive.antt =====
-- The heartbeats of client_control.c and the timeout of session_table.c.
use mathlib.Core.Path.{subst}
use pi_ghost.Base.{
  ℕ, suc, ltb, if◌then◌else◌, ◌+◌, ◌≤◌, ◌<◌, ◌≡◌, refl, sym, Bool, true, false, List, [], ◌∷◌,
  arith, ◌&&◌, ◌==◌, if_both, if_either, not,
}
use pi_ghost.Wisp.Types.{Timespec}
use pi_ghost.Wisp.Table.{timed_out}
use pi_ghost.Wisp.Ring.{Ring}
use pi_ghost.Wisp.Arbiter.Deadline.{nanos}
use pi_ghost.Wisp.Arbiter.Heartbeat.{timed_out-nanos}
use pi_ghost.Wisp.Client.{Client, ClientCall, sends_msg, heartbeat_msg}
use pi_ghost.Wisp.Client.Thread.{
  activate_grant, activate_deny, deactivate, evict_pending, version_mismatch, other, dmabuf_ack,
  mode_reply, Incoming, got, failed, Control, is_due, heartbeat_ms, retry_activate_ms,
  send_heartbeat, retry_activate, receive, turn,
}

-- A turn of the client's thread: when it begins, what it receives, and when the server takes what the
-- turn has sent.
pub record Round : Type 0 where
  pub now : Timespec
  pub taken : Timespec
  pub ring : Ring
  pub incoming : Incoming

-- No message that ends or renews the grant.
abbrev pub IsSteady : Incoming → Type 0
IsSteady (got (activate_grant generation) fd) = ⊥
IsSteady (got deactivate fd) = ⊥
IsSteady (got evict_pending fd) = ⊥
IsSteady incoming = Unit

-- Well-formed times, and nothing is taken before it is sent.
abbrev pub IsProper : Round → Type 0
IsProper r =
    (r.now.tv_nsec < 1000000000) × (r.taken.tv_nsec < 1000000000) × (nanos r.now ≤ nanos r.taken)

abbrev pub AreSteady : List Round → Type 0
AreSteady [] = Unit
AreSteady (r ∷ rs) = IsProper r × IsSteady r.incoming × AreSteady rs

abbrev pub rounds : List Round → Control → Control
rounds [] c = c
rounds (r ∷ rs) c = rounds rs (turn r.now r.ring false r.incoming c)

-- The heartbeats that a client has sent.
abbrev pub heartbeats : List ClientCall → ℕ
heartbeats [] = 0
heartbeats (sends_msg (heartbeat_msg generation counter) ∷ calls) = suc (heartbeats calls)
heartbeats (_ ∷ calls) = heartbeats calls

-- When the server took the last heartbeat, if a turn sends more than had been sent before it.
abbrev pub latest_of : (before after : ℕ) → (taken last : Timespec) → Timespec
latest_of before after taken last = if ltb before after then taken else last

abbrev pub heard : List Round → Control → Timespec → Timespec
heard [] c last = last
heard (r ∷ rs) c last =
    let c' = turn r.now r.ring false r.incoming c in
    heard rs c' (latest_of (heartbeats c.client.calls) (heartbeats c'.client.calls) r.taken last)

-- When the last turn began.
abbrev pub last_round : Timespec → List Round → Timespec
last_round before [] = before
last_round before (r ∷ rs) = last_round r.now rs

not_due :
    (now last : Timespec)
    → now.tv_nsec < 1000000000
    → last.tv_nsec < 1000000000
    → is_due heartbeat_ms now last ≡ false
    → nanos now < nanos last + 500000000
not_due now last h k e = ground arith

-- The client is active, and its last heartbeat was sent less than 500 ms before `t`.
record IsBeating (t : Timespec) (c : Control) : Type 0 where
  active : c.client.active ≡ true
  recent : nanos t < nanos c.last_heartbeat + 500000000
  proper : c.last_heartbeat.tv_nsec < 1000000000

send_heartbeat-IsBeating :
    (now : Timespec) (ring : Ring) (c : Control)
    → now.tv_nsec < 1000000000
    → c.client.active ≡ true
    → c.last_heartbeat.tv_nsec < 1000000000
    → IsBeating now (send_heartbeat now ring c)
send_heartbeat-IsBeating now ring c h a p =
    if_either (IsBeating now) (c.client.active && is_due heartbeat_ms now c.last_heartbeat) _ c
      (λ due. record { active = a; recent = omega arith; proper = h })
      (λ early. record {
        active = a;
        recent = not_due now c.last_heartbeat h p (second c.client.active _ a early);
        proper = p;
      })
  where
    second : (x y : Bool) → x ≡ true → (x && y) ≡ false → y ≡ false
    second x y a e = ground arith

-- An active client does not ask again.
no_retry : (now : Timespec) (c : Control) → c.client.active ≡ true → retry_activate now c ≡ c
no_retry now c a =
    if_either (λ d. d ≡ c)
      (not c.client.active && is_due retry_activate_ms now c.last_activate_attempt) _ c
      (λ e. absurd (inactive c.client.active _ a e)) (λ e. refl)
  where
    inactive : (x y : Bool) → x ≡ true → (not x && y) ≡ true → ⊥
    inactive x y a e = ground arith

steady_active :
    (incoming : Incoming) (ctx : Client)
    → IsSteady incoming
    → ctx.active ≡ true
    → (receive false incoming ctx).active ≡ true
steady_active (got (activate_grant generation) fd) ctx s a = absurd s
steady_active (got deactivate fd) ctx s a = absurd s
steady_active (got evict_pending fd) ctx s a = absurd s
steady_active (got activate_deny fd) ctx s a = a
steady_active (got version_mismatch fd) ctx s a = a
steady_active (got other fd) ctx s a = a
steady_active (got (dmabuf_ack accepted) fd) ctx s a =
    if_both (λ (d : Client). d.active ≡ true) (accepted == 0) _ _ a a
steady_active (got (mode_reply mode) fd) ctx s a = a
steady_active (failed reply) ctx s a = a

turn-IsBeating :
    (r : Round) (c : Control)
    → r.now.tv_nsec < 1000000000
    → IsSteady r.incoming
    → c.client.active ≡ true
    → c.last_heartbeat.tv_nsec < 1000000000
    → IsBeating r.now (turn r.now r.ring false r.incoming c)
turn-IsBeating r c h s a p =
    let b = send_heartbeat-IsBeating r.now r.ring c h a p in
    subst (λ d. IsBeating r.now (record d { client = receive false r.incoming d.client }))
      (sym (no_retry r.now (send_heartbeat r.now r.ring c) b.active))
      (record {
        active = steady_active r.incoming (send_heartbeat r.now r.ring c).client s b.active;
        recent = b.recent;
        proper = b.proper;
      })

rounds-IsBeating :
    (rs : List Round) (before : Timespec) (c : Control)
    → AreSteady rs
    → IsBeating before c
    → IsBeating (last_round before rs) (rounds rs c)
rounds-IsBeating [] before c s b = b
rounds-IsBeating (r ∷ rs) before c (p, s, ss) b =
    rounds-IsBeating rs r.now (turn r.now r.ring false r.incoming c) ss
      (turn-IsBeating r c p.0 s b.active b.proper)

-- A steady message sends no heartbeat.
steady_count :
    (incoming : Incoming) (ctx : Client)
    → IsSteady incoming
    → heartbeats (receive false incoming ctx).calls ≡ heartbeats ctx.calls
steady_count (got (activate_grant generation) fd) ctx s = absurd s
steady_count (got deactivate fd) ctx s = absurd s
steady_count (got evict_pending fd) ctx s = absurd s
steady_count (got activate_deny fd) ctx s = refl
steady_count (got version_mismatch fd) ctx s = refl
steady_count (got other fd) ctx s = refl
steady_count (got (dmabuf_ack accepted) fd) ctx s =
    if_both (λ (d : Client). heartbeats d.calls ≡ heartbeats ctx.calls) (accepted == 0) _ _ refl
      refl
steady_count (got (mode_reply mode) fd) ctx s = refl
steady_count (failed reply) ctx s = refl

-- The server has taken a heartbeat no earlier than the last one was sent.
abbrev IsHeard : Control → Timespec → Type 0
IsHeard c last = (nanos c.last_heartbeat ≤ nanos last) × (last.tv_nsec < 1000000000)

module _ (r : Round) (c : Control) (last : Timespec) (p : IsProper r) (h : IsHeard c last) where
  -- With as many heartbeats sent as in `d`.
  abbrev last_after : Control → Timespec
  last_after d = latest_of (heartbeats c.client.calls) (heartbeats d.client.calls) r.taken last

  send_heartbeat-IsHeard :
      IsHeard (send_heartbeat r.now r.ring c) (last_after (send_heartbeat r.now r.ring c))
  send_heartbeat-IsHeard =
      if_either (λ d. IsHeard d (last_after d))
        (c.client.active && is_due heartbeat_ms r.now c.last_heartbeat) _ c
        (λ due. rw (more (heartbeats c.client.calls)) (p.2, p.1))
        (λ early. rw (same (heartbeats c.client.calls)) h)
    where
      more : (n : ℕ) → ltb n (suc n) ≡ true
      more n = ground arith

      same : (n : ℕ) → ltb n n ≡ false
      same n = ground arith

  turn-IsHeard :
      IsSteady r.incoming
      → c.client.active ≡ true
      → c.last_heartbeat.tv_nsec < 1000000000
      → IsHeard
          (turn r.now r.ring false r.incoming c)
          (last_after (turn r.now r.ring false r.incoming c))
  turn-IsHeard s a q =
      let b = send_heartbeat-IsBeating r.now r.ring c p.0 a q in
      let sent = send_heartbeat r.now r.ring c in
      subst (λ d. IsHeard d (last_after (record d { client = receive false r.incoming d.client })))
        (sym (no_retry r.now sent b.active))
        (subst (λ n. IsHeard sent (latest_of (heartbeats c.client.calls) n r.taken last))
          (sym (steady_count r.incoming sent.client s)) send_heartbeat-IsHeard)

rounds-IsHeard :
    (rs : List Round) (before : Timespec) (c : Control) (last : Timespec)
    → AreSteady rs
    → IsBeating before c
    → IsHeard c last
    → IsHeard (rounds rs c) (heard rs c last)
rounds-IsHeard [] before c last s b h = h
rounds-IsHeard (r ∷ rs) before c last (p, s, ss) b h =
    rounds-IsHeard rs r.now (turn r.now r.ring false r.incoming c) _ ss
      (turn-IsBeating r c p.0 s b.active b.proper) (turn-IsHeard r c last p h s b.active b.proper)

-- However many turns the thread of an active client makes, and whatever it receives that does not end
-- or renew the grant: the server, which takes each heartbeat that a turn sends at some time after the
-- turn has begun, does not find the client timed out within 500 ms of the beginning of the latest
-- turn. At first it had taken a heartbeat no earlier than the client's last one; the times are well
-- formed.
pub rounds-in_time :
    (first : Round) (rs : List Round) (c : Control) (server_now taken : Timespec)
    → c.client.active ≡ true
    → c.last_heartbeat.tv_nsec < 1000000000
    → AreSteady (first ∷ rs)
    → taken.tv_nsec < 1000000000
    → nanos c.last_heartbeat ≤ nanos taken
    → server_now.tv_nsec < 1000000000
    → nanos server_now ≤ nanos (last_round first.now rs) + 500000000
    → timed_out server_now (heard (first ∷ rs) c taken) ≡ false
rounds-in_time first rs c server_now taken a q (p, s, ss) n t n' l =
    let b = turn-IsBeating first c p.0 s a q in
    let next = turn first.now first.ring false first.incoming c in
    let beating = rounds-IsBeating rs first.now next ss b in
    let (late, proper) =
      rounds-IsHeard rs first.now next _ ss b (turn-IsHeard first c taken p (t, n) s a q) in
    (timed_out-nanos server_now (heard (first ∷ rs) c taken) n' proper).0
      (omega (arith, beating.recent, late, l))

-- A turn 499 ms after a heartbeat, which some message brought about, sends none. If the next turn
-- begins 503 ms later, at the end of the 500 ms that the receive may last, the heartbeat comes after
-- the server's timeout: 1000 ms do not always cover two periods.
rounds-late :
    (early : Round) (c : Control) (next : Timespec)
    → c.last_heartbeat.tv_nsec < 1000000000
    → early.now.tv_nsec < 1000000000
    → next.tv_nsec < 1000000000
    → nanos early.now ≡ nanos c.last_heartbeat + 499000000
    → nanos next ≡ nanos early.now + 503000000
    → (is_due heartbeat_ms early.now c.last_heartbeat ≡ false)
      × (timed_out next c.last_heartbeat ≡ true)
rounds-late early c next p h n e f = (
  early_enough early.now c.last_heartbeat h p e,
  (timed_out-nanos next c.last_heartbeat n p).1 (omega (arith, e, f)),
)
  where
    early_enough :
        (now last : Timespec)
        → now.tv_nsec < 1000000000
        → last.tv_nsec < 1000000000
        → nanos now ≡ nanos last + 499000000
        → is_due heartbeat_ms now last ≡ false
    early_enough now last h k e = ground arith
