-- ===== src/Wisp/DataPlane/Latest.antt =====
-- A frame of client_control.c from wispc_publish to the sink of data_plane.c.
use pi_ghost.Base.{
  ℕ, suc, ◌+◌, ◌-◌, ◌<◌, ◌≡◌, refl, ◌∙◌, Bool, true, List, [], ◌∷◌, none, some, arith, length,
  get_or, ltb,
}
use Prim.Native.Nat.{◌^◌}
use pi_ghost.Wisp.Types.{Timespec}
use pi_ghost.Wisp.Ring.{Ring, publish_slot, set_at, evict_client}
use pi_ghost.Wisp.Client.{
  Client, ClientCall, sends_msg, closes_fd, unmaps, signals, publish, time_ns,
}
use pi_ghost.Wisp.Session.Granted.{publish-current}
use pi_ghost.Wisp.DataPlane.{
  DataPlane, u64, ready, goes_on, woken, show_latest, drained, drop_frame, kick,
}
use pi_ghost.Wisp.DataPlane.Shown.{with_ring, get_or-set_at}

get_or-set_self : (xs : List ℕ) (i x : ℕ) → i < length xs → get_or (set_at xs i x) i 0 ≡ x
get_or-set_self xs i x h = ground (arith, get_or-set_at xs i i x h)

-- The signals that a client has sent.
abbrev pub sent_signals : List ClientCall → ℕ
sent_signals [] = 0
sent_signals (signals ∷ calls) = suc (sent_signals calls)
sent_signals (sends_msg m ∷ calls) = sent_signals calls
sent_signals (closes_fd fd ∷ calls) = sent_signals calls
sent_signals (unmaps ∷ calls) = sent_signals calls

-- The data plane after a call of the client `before`: the ring that the call leaves, and the signals
-- that it sent.
abbrev pub reached : Client → Client × Ring → DataPlane → DataPlane
reached before (after, ring) dp = record (with_ring ring dp) {
  frame_signals = dp.frame_signals + (sent_signals after.calls - sent_signals before.calls);
}

-- The data plane with a ring and one more signal.
abbrev pub signalled : Ring → DataPlane → DataPlane
signalled ring dp = record (with_ring ring dp) { frame_signals = suc dp.frame_signals }

-- The data plane that has shown the buffer `idx` with this id and time stamp, and waits again.
abbrev pub shown : Ring → ℕ → ℕ → ℕ → ℕ → DataPlane → DataPlane
shown ring idx frame_id write_ts_ns now_ns dp = record dp {
  ring = record ring { server_locked = none };
  frame_signals = 0;
  abort_signals = 0;
  frames_rendered = u64 (dp.frames_rendered + 1);
  last_write_to_render_ns = u64 (now_ns + 2 ^ 64 - write_ts_ns);
  blits =
      record { width = dp.width; height = dp.height; buffer = idx; frame_id = frame_id } ∷ dp.blits;
}

signal_seen :
    (taken : Bool) (now_ns : ℕ) (dp : DataPlane) (n : ℕ)
    → dp.running ≡ true
    → woken ready taken now_ns (record dp { frame_signals = suc n })
      ≡ goes_on (show_latest taken now_ns (drained dp))
signal_seen taken now_ns dp n r = rw (r, positive n) refl
  where
    positive : (n : ℕ) → ltb 0 (suc n) ≡ true
    positive n = ground arith

one_signal : (n m : ℕ) → n + (suc m - m) ≡ suc n
one_signal n m = omega arith

-- An active client with the generation of the ring and a descriptor for the signal calls
-- wispc_publish, and the signals that the call sends reach the data plane, which runs. In its next
-- turn the sink is given this frame, with its id, from its buffer and in the current mode, and
-- accepts it; then the buffer is released, and the statistics have one more frame and the time from
-- the publish to the end of the blit.
pub publish-shown :
    (now : Timespec) (idx frame_id now_ns fd : ℕ) (ctx : Client) (ring : Ring) (dp : DataPlane)
    → ctx.active ≡ true
    → ctx.frame_fd ≡ some fd
    → ctx.granted_generation ≡ ring.generation
    → idx < length ring.frame_id
    → idx < length ring.write_ts_ns
    → dp.running ≡ true
    → woken ready true now_ns (reached ctx (publish now idx frame_id ctx ring) dp)
      ≡ goes_on (shown (publish now idx frame_id ctx ring).1 idx frame_id (time_ns now) now_ns dp)
publish-shown now idx frame_id now_ns fd ctx ring dp a f g l m r =
    rw
      (
        publish-current now idx frame_id ctx ring a g,
        f,
        one_signal dp.frame_signals (sent_signals ctx.calls),
      )
      (signal_seen true now_ns (with_ring (publish_slot ring idx frame_id (time_ns now)) dp)
          dp.frame_signals r
        ∙ rw
            (
              get_or-set_self ring.frame_id idx frame_id l,
              get_or-set_self ring.write_ts_ns idx (time_ns now) m,
            )
            refl)

-- If the control plane evicts the client between the signal and the turn, nothing is shown, and the
-- frame counts as dropped.
pub evict-dropped :
    (taken : Bool) (now_ns : ℕ) (ring : Ring) (dp : DataPlane)
    → dp.running ≡ true
    → woken ready taken now_ns (kick (signalled (evict_client ring) dp))
      ≡ goes_on (drop_frame (drained (with_ring (evict_client ring) dp)))
evict-dropped taken now_ns ring dp r =
    signal_seen taken now_ns (kick (with_ring (evict_client ring) dp)) dp.frame_signals r
