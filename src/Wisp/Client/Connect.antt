-- ===== src/Wisp/Client/Connect.antt =====
-- wispc_connect of client_control.c.
use pi_ghost.Base.{
  ℕ, zero, suc, ◌+◌, Bool, true, false, List, [], ◌∷◌, Option, none, some, take, Text,
}
use pi_ghost.Wisp.Types.{RenderMode, ConnectMsg, zero_mode, pixels, max_modes}
use pi_ghost.Wisp.Handlers.{protocol_magic, protocol_version_major, protocol_version_minor}
use pi_ghost.Wisp.Client.{
  Client, ClientCall, closes_fd, connect_msg, activate_request_msg, ack_pending, send, does,
  handle_grant,
}
use pi_ghost.Wisp.Client.Thread.{
  activate_grant, activate_deny, deactivate, evict_pending, version_mismatch, other, dmabuf_ack,
  mode_reply, Incoming, got, failed,
}

-- One round of the loop: no socket, or a socket on which connect fails or succeeds.
pub data Attempt : Type 0 where
  no_socket : Attempt
  refused connected : (fd : ℕ) → Attempt

-- The rounds that are left, from the round `i` on: the socket, and the closes before it, the latest
-- first.
abbrev pub try_connect : (ℕ → Attempt) → ℕ → ℕ → List ClientCall → Option ℕ × List ClientCall
try_connect attempts i zero calls = (none, calls)
try_connect attempts i (suc rounds) calls = elim (attempts i) [
  | no_socket ↦ (none, calls)
  | refused fd ↦ try_connect attempts (i + 1) rounds (closes_fd fd ∷ calls)
  | connected fd ↦ (some fd, calls)
]

abbrev pub connect_request : Text → List RenderMode → ConnectMsg
connect_request client_id modes = record {
  protocol_magic = protocol_magic;
  protocol_major = protocol_version_major;
  protocol_minor = protocol_version_minor;
  client_id = take 31 client_id;
  modes = take max_modes modes;
}

abbrev pub new_client : ℕ → List ClientCall → Client
new_client fd calls = record {
  ctrl_fd = fd;
  ring = false;
  active = false;
  running = true;
  granted_generation = 0;
  mode = zero_mode;
  frame_fd = none;
  payload_kind = pixels;
  dmabuf_ack_state = ack_pending;
  calls = calls;
}

-- The session, or NULL with what was done on the way.
pub data Connected : Type 0 where
  session : Client → Connected
  no_session : List ClientCall → Connected

abbrev pub give_up : Client → Connected
give_up ctx = no_session (does (closes_fd ctx.ctrl_fd) ctx).calls

abbrev pub granted_or_not : Bool × Client → Connected
granted_or_not (true, ctx) = session ctx
granted_or_not (false, ctx) = give_up ctx

-- The answer to the first ACTIVATE_REQUEST.
abbrev pub first_grant : Bool → Incoming → Client → Connected
first_grant attached (got (activate_grant generation) fd) ctx =
    granted_or_not (handle_grant attached generation fd ctx)
first_grant attached (got activate_deny fd) ctx = session ctx
first_grant attached (got deactivate fd) ctx = session ctx
first_grant attached (got evict_pending fd) ctx = session ctx
first_grant attached (got version_mismatch fd) ctx = session ctx
first_grant attached (got other fd) ctx = session ctx
first_grant attached (got (dmabuf_ack accepted) fd) ctx = session ctx
first_grant attached (got (mode_reply mode) fd) ctx = session ctx
first_grant attached (failed reply) ctx = session ctx

abbrev pub ask : Bool → Incoming → Client → Connected
ask attached second ctx = first_grant attached second (send activate_request_msg ctx)

-- The answer to CONNECT. Without a message the code still compares `kind`, which may be unset.
abbrev pub negotiate : Bool → Incoming → Incoming → Client → Connected
negotiate attached (got (mode_reply (some mode)) fd) second ctx =
    ask attached second (record ctx { mode = mode })
negotiate attached (got (mode_reply none) fd) second ctx = give_up ctx
negotiate attached (got version_mismatch fd) second ctx = give_up ctx
negotiate attached (got (activate_grant generation) fd) second ctx = ask attached second ctx
negotiate attached (got activate_deny fd) second ctx = ask attached second ctx
negotiate attached (got deactivate fd) second ctx = ask attached second ctx
negotiate attached (got evict_pending fd) second ctx = ask attached second ctx
negotiate attached (got other fd) second ctx = ask attached second ctx
negotiate attached (got (dmabuf_ack accepted) fd) second ctx = ask attached second ctx
negotiate attached (failed version_mismatch) second ctx = give_up ctx
negotiate attached (failed (activate_grant generation)) second ctx = ask attached second ctx
negotiate attached (failed activate_deny) second ctx = ask attached second ctx
negotiate attached (failed deactivate) second ctx = ask attached second ctx
negotiate attached (failed evict_pending) second ctx = ask attached second ctx
negotiate attached (failed other) second ctx = ask attached second ctx
negotiate attached (failed (dmabuf_ack accepted)) second ctx = ask attached second ctx
negotiate attached (failed (mode_reply mode)) second ctx = ask attached second ctx

abbrev pub handshake :
    Bool → Incoming → Incoming → Text → List RenderMode → Option ℕ × List ClientCall → Connected
handshake attached first second client_id modes (none, calls) = no_session calls
handshake attached first second client_id modes (some fd, calls) =
    negotiate attached first second
      (send (connect_msg (connect_request client_id modes)) (new_client fd calls))

-- wispc_connect; `attached` is what wispc_shm_attach gives if it is called.
abbrev pub connect_client :
    (ℕ → Attempt) → Bool → Incoming → Incoming → Text → List RenderMode → Connected
connect_client attempts attached first second client_id modes =
    handshake attached first second client_id modes (try_connect attempts 0 100 [])
