-- ===== src/Wisp/Client/Thread.antt =====
-- wispc_control of client_control.c: the turns of the client's thread.
use pi_ghost.Base.{ℕ, ◌+◌, Bool, true, false, ◌&&◌, not, Option, if◌then◌else◌, leb, ◌==◌}
use pi_ghost.Wisp.Types.{Timespec, RenderMode, dmabuf}
use pi_ghost.Wisp.Table.{ms_up, ms_down}
use pi_ghost.Wisp.Ring.{Ring}
use pi_ghost.Wisp.Client.{
  Client, ack_accepted, ack_refused, activate_request_msg, stopped_msg, heartbeat_msg, send,
  handle_grant,
}

-- A message of the server, by its kind; the payload has the length of its struct.
pub data Reply : Type 0 where
  activate_grant : (generation : ℕ) → Reply
  activate_deny deactivate evict_pending version_mismatch other : Reply
  dmabuf_ack : (accepted : ℕ) → Reply
  -- `none` where `accepted` is 0.
  mode_reply : Option RenderMode → Reply

-- What wisp_ctrl_recv_fds gives: a message with the first of its descriptors, or -1 or -2, where
-- the kind holds the `Reply` that stands in it.
pub data Incoming : Type 0 where
  got : Reply → Option ℕ → Incoming
  failed : Reply → Incoming

pub record Control : Type 0 where
  pub client : Client
  pub last_heartbeat : Timespec
  pub last_activate_attempt : Timespec

abbrev pub heartbeat_ms : ℕ
heartbeat_ms = 500

abbrev pub retry_activate_ms : ℕ
retry_activate_ms = 2000

-- `(difference in ms) >= period`
abbrev pub is_due : ℕ → Timespec → Timespec → Bool
is_due period now last = leb (period + ms_down now last) (ms_up now last)

abbrev counter_of : Bool → Ring → ℕ
counter_of true ring = ring.frame_counter
counter_of false ring = 0

abbrev pub send_heartbeat : Timespec → Ring → Control → Control
send_heartbeat now ring c =
    if c.client.active && is_due heartbeat_ms now c.last_heartbeat
    then record c {
      client =
          send (heartbeat_msg c.client.granted_generation (counter_of c.client.ring ring)) c.client;
      last_heartbeat = now;
    }
    else c

abbrev pub retry_activate : Timespec → Control → Control
retry_activate now c =
    if not c.client.active && is_due retry_activate_ms now c.last_activate_attempt
    then record c { client = send activate_request_msg c.client; last_activate_attempt = now }
    else c

abbrev pub take_ack : ℕ → Client → Client
take_ack accepted ctx =
    if accepted == 0
    then record ctx { dmabuf_ack_state = ack_refused }
    else record ctx { payload_kind = dmabuf; dmabuf_ack_state = ack_accepted }

-- The switch on the kind.
abbrev pub take_reply : Bool → Reply → Option ℕ → Client → Client
take_reply attached (activate_grant generation) fd ctx = (handle_grant attached generation fd ctx).1
take_reply attached activate_deny fd ctx = ctx
take_reply attached deactivate fd ctx = record ctx { active = false }
take_reply attached evict_pending fd ctx = send stopped_msg (record ctx { active = false })
take_reply attached (dmabuf_ack accepted) fd ctx = take_ack accepted ctx
take_reply attached version_mismatch fd ctx = ctx
take_reply attached (mode_reply mode) fd ctx = ctx
take_reply attached other fd ctx = ctx

abbrev pub receive : Bool → Incoming → Client → Client
receive attached (got reply fd) ctx = take_reply attached reply fd ctx
receive attached (failed reply) ctx = ctx

-- What a turn sends before it waits for a message.
abbrev pub before_message : Timespec → Ring → Control → Control
before_message now ring c = retry_activate now (send_heartbeat now ring c)

-- One turn of the loop while `running` is set.
abbrev pub turn : Timespec → Ring → Bool → Incoming → Control → Control
turn now ring attached incoming c = record (before_message now ring c) {
  client = receive attached incoming (before_message now ring c).client;
}
