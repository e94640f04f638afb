-- ===== src/Wisp/Session.antt =====
-- The client library (wisp/client_sdk/src/client_control.c) and the control plane
-- (wisp/server/src/control/control_plane.c) at the two ends of a socket: what one sends, the other
-- receives, as wisp_ctrl_send_fds and wisp_ctrl_recv_fds pass it on.
pub mod Granted
pub mod Evicted
pub mod Alive
use pi_ghost.Base.{ℕ, List, [], ◌∷◌, Option, none, some, map}
use pi_ghost.Wisp.Control.{
  Message, version_mismatch, mode_reply, activate_grant, activate_queued, evict_pending, dmabuf_ack,
  liveness_timeout, deactivate_msg, Effect, sends, closes, kicks, sets_mode,
}
use pi_ghost.Wisp.Handlers.{
  Received, connect, activate_request, ready_for_rt, stopped, heartbeat, disconnect,
  dmabuf_announce,
}
use pi_ghost.Wisp.Client.{
  ClientMessage, connect_msg, activate_request_msg, ready_for_rt_msg, stopped_msg, disconnect_msg,
  heartbeat_msg, dmabuf_announce_msg, ClientCall, sends_msg, closes_fd, unmaps, signals,
}
use pi_ghost.Wisp.Client.Thread.{Incoming, got}
use pi_ghost.Wisp.Client.Thread

-- What handle_readable makes of a client's message.
abbrev pub received : ClientMessage → Received
received (connect_msg c) = connect (some c)
received activate_request_msg = activate_request
received ready_for_rt_msg = ready_for_rt
received stopped_msg = stopped
received disconnect_msg = disconnect
received (heartbeat_msg generation frame_counter) = heartbeat
received (dmabuf_announce_msg msg fds) = dmabuf_announce msg (map some fds)

-- What the client makes of the server's message; `fd` is the number that the kernel gives to a
-- descriptor that came with it. The client has no case for ACTIVATE_QUEUED and LIVENESS_TIMEOUT.
abbrev pub delivered : Message → ℕ → Incoming
delivered (version_mismatch magic major) fd = got Thread.version_mismatch none
delivered (mode_reply mode) fd = got (Thread.mode_reply mode) none
delivered (activate_grant generation frame_fd) fd = got (Thread.activate_grant generation) (some fd)
delivered (activate_queued position) fd = got Thread.other none
delivered (evict_pending grace_ms) fd = got Thread.evict_pending none
delivered (dmabuf_ack accepted) fd = got (Thread.dmabuf_ack accepted) none
delivered liveness_timeout fd = got Thread.other none
delivered deactivate_msg fd = got Thread.deactivate none

-- The latest message of the server, with the socket.
abbrev pub last_sent : List Effect → Option (Option ℕ × Message)
last_sent [] = none
last_sent (sends fd m ∷ effects) = some (fd, m)
last_sent (closes fd ∷ effects) = last_sent effects
last_sent (kicks ∷ effects) = last_sent effects
last_sent (sets_mode width height ∷ effects) = last_sent effects

-- The latest message of the client.
abbrev pub last_message : List ClientCall → Option ClientMessage
last_message [] = none
last_message (sends_msg m ∷ calls) = some m
last_message (closes_fd fd ∷ calls) = last_message calls
last_message (unmaps ∷ calls) = last_message calls
last_message (signals ∷ calls) = last_message calls
