-- ===== src/Wisp/Handlers.antt =====
-- wisp/server/src/control/control_plane.c: what the control plane does with each message, with an
-- admin query, and on each turn of its loop.
use pi_ghost.Base.{
  ℕ, Bool, true, false, ◌&&◌, List, [], ◌∷◌, Option, none, some, if◌then◌else◌, ltb, ◌==◌, take,
  length,
}
use pi_ghost.Wisp.Types.{
  Timespec, RenderMode, SessionState, negotiated, queued, granted_warmup, active_rt,
  evicting_cooperative, evicting_forced, rejected, ConnectMsg, max_modes,
}
use pi_ghost.Wisp.Dmabuf.{DmabufAnnounceMsg, DmabufSet, set_from_announce, set_close}
use pi_ghost.Wisp.Table.{
  Session, SessionTable, slot_at, update, set_state, names_slot, takes_rt, is_active_rt,
  rt_slot_taken, find_by_client_id, ms_up, ms_down, check_heartbeat_timeouts, removed_fds,
}
use pi_ghost.Wisp.Table
use pi_ghost.Wisp.Queue.{queue_position}
use pi_ghost.Wisp.Control.{
  ControlPlane, version_mismatch, mode_reply, activate_queued, dmabuf_ack, sends, closes, emit,
  with_table, fd_of, evict_and_kick, negotiate_mode, finish_pending_grant, grant_slot,
  maybe_grant_next_queued,
}

-- `WISP_PROTOCOL_MAGIC` and the version of wisp/version.h.
abbrev pub protocol_magic : ℕ
protocol_magic = 1464423248

abbrev pub protocol_version_major : ℕ
protocol_version_major = 0

abbrev pub protocol_version_minor : ℕ
protocol_version_minor = 0

abbrev pub is_cooperative : SessionState → Bool
is_cooperative evicting_cooperative = true
is_cooperative _ = false

abbrev is_evicting : SessionState → Bool
is_evicting evicting_cooperative = true
is_evicting evicting_forced = true
is_evicting _ = false

abbrev pub is_warmup : SessionState → Bool
is_warmup granted_warmup = true
is_warmup _ = false

abbrev pub is_negotiated : SessionState → Bool
is_negotiated negotiated = true
is_negotiated _ = false

-- `if (target == idx) target = -1`
abbrev pub forget : Option ℕ → ℕ → Option ℕ
forget target idx = if names_slot target idx then none else target

-- The reclaim of the slot of an evicted session.
abbrev pub reclaim : ControlPlane → ℕ → ControlPlane
reclaim cp idx = record cp {
  table = Table.reclaim_eviction cp.table idx;
  evicting_slot = forget cp.evicting_slot idx;
}

abbrev pub handle_stopped : ControlPlane → ℕ → ControlPlane
handle_stopped cp idx =
    if is_cooperative (slot_at cp.table idx).state
    then finish_pending_grant (reclaim cp idx)
    else cp

abbrev pub wind_up : ControlPlane → ℕ → SessionState → ControlPlane
wind_up cp idx active_rt = evict_and_kick cp
wind_up cp idx evicting_cooperative = reclaim cp idx
wind_up cp idx evicting_forced = reclaim cp idx
wind_up cp idx _ = cp

abbrev pub close_all : List ℕ → ControlPlane → ControlPlane
close_all [] cp = cp
close_all (fd ∷ fds) cp = close_all fds (emit (closes (some fd)) cp)

abbrev pub close_slot : ControlPlane → ℕ → ControlPlane
close_slot cp idx = emit (closes (fd_of cp idx)) (record cp {
  table = Table.remove cp.table idx;
  pending_grant_target = forget cp.pending_grant_target idx;
})

-- The close of the descriptor, and wisps_session_table_remove with the buffers that it closes.
abbrev pub drop_slot : ControlPlane → ℕ → ControlPlane
drop_slot cp idx = close_all (removed_fds (slot_at cp.table idx)) (close_slot cp idx)

abbrev pub handle_disconnect : ControlPlane → Timespec → ℕ → ControlPlane
handle_disconnect cp now idx =
    let gone = drop_slot (wind_up cp idx (slot_at cp.table idx).state) idx in
    if takes_rt (slot_at cp.table idx).state
    then maybe_grant_next_queued (finish_pending_grant gone) now
    else gone

abbrev pub version_matches : ConnectMsg → Bool
version_matches c = c.protocol_magic == protocol_magic && c.protocol_major == protocol_version_major

-- REJECTED, which is CLOSED at once.
abbrev pub reject : ControlPlane → Timespec → ℕ → ControlPlane
reject cp now idx =
    handle_disconnect (with_table cp (update cp.table idx (set_state rejected))) now idx

abbrev pub negotiated_session : ConnectMsg → RenderMode → Session → Session
negotiated_session c chosen s = record s {
  client_id = take 31 c.client_id;
  num_offered_modes = length c.modes;
  offered_modes = c.modes;
  negotiated_mode = chosen;
  negotiated_protocol_minor =
      if ltb c.protocol_minor protocol_version_minor
      then c.protocol_minor
      else protocol_version_minor;
  state = negotiated;
}

abbrev pub answer_connect :
    ControlPlane → Timespec → ℕ → ConnectMsg → Option RenderMode → ControlPlane
answer_connect cp now idx c none = reject (emit (sends (fd_of cp idx) (mode_reply none)) cp) now idx
answer_connect cp now idx c (some chosen) =
    emit (sends (fd_of cp idx) (mode_reply (some chosen)))
      (with_table cp (update cp.table idx (negotiated_session c chosen)))

abbrev pub handle_connect : ControlPlane → Timespec → ℕ → ConnectMsg → ControlPlane
handle_connect cp now idx c =
    if version_matches c
    then answer_connect cp now idx c (negotiate_mode cp.supported_modes c.modes)
    else reject
        (emit (sends (fd_of cp idx) (version_mismatch protocol_magic protocol_version_major)) cp)
        now idx

abbrev pub set_queued : Timespec → Session → Session
set_queued now s = record s { activate_requested_monotonic = now; state = queued }

-- QUEUED, and the reply with its place.
abbrev pub enqueue : ControlPlane → Timespec → ℕ → ControlPlane
enqueue cp now idx =
    let waiting : SessionTable = update cp.table idx (set_queued now) in
    emit (sends (fd_of cp idx) (activate_queued (queue_position waiting idx)))
      (with_table cp waiting)

abbrev pub handle_activate_request : ControlPlane → Timespec → ℕ → ControlPlane
handle_activate_request cp now idx =
    if is_negotiated (slot_at cp.table idx).state
    then (if rt_slot_taken cp.table then enqueue cp now idx else grant_slot cp now idx)
    else cp

abbrev pub handle_ready_for_rt : ControlPlane → Timespec → ℕ → ControlPlane
handle_ready_for_rt cp now idx =
    if is_warmup (slot_at cp.table idx).state
    then with_table cp (Table.activate cp.table idx now)
    else cp

abbrev pub handle_grant_decline : ControlPlane → Timespec → ℕ → ControlPlane
handle_grant_decline cp now idx =
    if is_warmup (slot_at cp.table idx).state
    then maybe_grant_next_queued (with_table cp (update cp.table idx (set_state negotiated))) now
    else cp

abbrev pub set_heartbeat : Timespec → Session → Session
set_heartbeat now s = record s { last_heartbeat_monotonic = now }

abbrev pub handle_heartbeat : ControlPlane → Timespec → ℕ → ControlPlane
handle_heartbeat cp now idx =
    if is_active_rt (slot_at cp.table idx).state
    then with_table cp (update cp.table idx (set_heartbeat now))
    else cp

abbrev pub close_set : Option DmabufSet → List ℕ
close_set none = []
close_set (some s) = (set_close s).1

abbrev pub handle_dmabuf_announce :
    ControlPlane → ℕ → DmabufAnnounceMsg → List (Option ℕ) → ControlPlane
handle_dmabuf_announce cp idx msg fds = emit (sends (fd_of cp idx) (dmabuf_ack 0)) (
    close_all (close_set (set_from_announce msg fds).0)
      (close_all (set_from_announce msg fds).1 cp))

-- What wisp_ctrl_recv_fds returns, -1 or -2 or a message, with the payload that its kind has.
pub data Received : Type 0 where
  lost oversized : Received
  -- The payload, or `none` where the length is not that of the struct; more modes than the maximum
  -- count as none.
  connect : Option ConnectMsg → Received
  activate_request ready_for_rt grant_decline stopped heartbeat disconnect : Received
  dmabuf_announce : DmabufAnnounceMsg → List (Option ℕ) → Received
  malformed_announce unexpected : Received

abbrev pub zero_connect : ConnectMsg
zero_connect = record {
  protocol_magic = 0;
  protocol_major = 0;
  protocol_minor = 0;
  client_id = [];
  modes = [];
}

abbrev pub checked_connect : Option ConnectMsg → ConnectMsg
checked_connect none = zero_connect
checked_connect (some c) = if ltb max_modes (length c.modes) then record c { modes = [] } else c

abbrev pub handle_readable : ControlPlane → Timespec → ℕ → Received → ControlPlane
handle_readable cp now idx lost = handle_disconnect cp now idx
handle_readable cp now idx oversized = cp
handle_readable cp now idx (connect c) = handle_connect cp now idx (checked_connect c)
handle_readable cp now idx activate_request = handle_activate_request cp now idx
handle_readable cp now idx ready_for_rt = handle_ready_for_rt cp now idx
handle_readable cp now idx grant_decline = handle_grant_decline cp now idx
handle_readable cp now idx stopped = handle_stopped cp idx
handle_readable cp now idx heartbeat = handle_heartbeat cp now idx
handle_readable cp now idx disconnect = handle_disconnect cp now idx
handle_readable cp now idx (dmabuf_announce msg fds) = handle_dmabuf_announce cp idx msg fds
handle_readable cp now idx malformed_announce = cp
handle_readable cp now idx unexpected = cp
