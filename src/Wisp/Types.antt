-- ===== src/Wisp/Types.antt =====
-- wisp/protocol/include/wisp/types.h and wire.h, and the enum of session_table.h. A time of
-- CLOCK_MONOTONIC is two naturals, a file descriptor is a natural, and -1 is `none`.
use pi_ghost.Base.{ℕ, ◌*◌, List, Text}

pub record Timespec : Type 0 where
  pub tv_sec : ℕ
  pub tv_nsec : ℕ

abbrev pub zero_time : Timespec
zero_time = record { tv_sec = 0; tv_nsec = 0 }

pub record RenderMode : Type 0 where
  pub width : ℕ
  pub height : ℕ
  pub fps : ℕ

abbrev pub zero_mode : RenderMode
zero_mode = record { width = 0; height = 0; fps = 0 }

pub data SessionState : Type 0 where
  connected negotiated queued granted_warmup active_rt : SessionState
  evicting_cooperative evicting_forced rejected : SessionState

pub data PayloadKind : Type 0 where
  pixels dmabuf : PayloadKind

-- `wisp_connect_msg_t` as handle_readable passes it on.
pub record ConnectMsg : Type 0 where
  pub protocol_magic : ℕ
  pub protocol_major : ℕ
  pub protocol_minor : ℕ
  pub client_id : Text
  pub modes : List RenderMode

abbrev pub max_clients : ℕ
max_clients = 8

abbrev pub client_id_len : ℕ
client_id_len = 32

abbrev pub max_modes : ℕ
max_modes = 4

abbrev pub num_buffers : ℕ
num_buffers = 3

-- `2 * WISP_CLIENT_HEARTBEAT_MS`
abbrev pub heartbeat_timeout_ms : ℕ
heartbeat_timeout_ms = 2 * 500

abbrev pub evict_grace_ms : ℕ
evict_grace_ms = 1000
