-- ===== src/Wisp/Loop.antt =====
-- wisp/server/src/control/control_plane.c: the queries of the admin thread, and the turns of
-- wisps_control_plane_run.
use pi_ghost.Base.{
  ℕ, suc, Bool, List, [], ◌∷◌, Option, none, some, if◌then◌else◌, ltb, leb, Text, take,
}
use pi_ghost.Wisp.Types.{
  Timespec, RenderMode, SessionState, connected, negotiated, queued, granted_warmup, active_rt,
  evicting_cooperative, evicting_forced, rejected, PayloadKind, zero_time, max_modes,
}
use pi_ghost.Wisp.Table.{
  Session, SessionTable, slot_at, is_active_rt, find_by_client_id, ms_up, ms_down,
  check_heartbeat_timeouts,
}
use pi_ghost.Wisp.Table
use pi_ghost.Wisp.Ring.{new_ring}
use pi_ghost.Wisp.Control.{
  ControlPlane, sends, closes, liveness_timeout, deactivate_msg, emit, with_table, fd_of,
  evict_and_kick, finish_pending_grant, grant_slot, maybe_grant_next_queued, may_be_granted,
}
use pi_ghost.Wisp.Handlers.{handle_disconnect, Received, handle_readable}

-- The state of wisps_control_plane_init, for at least one mode.
abbrev pub new_plane : ℕ → Bool → List RenderMode → ControlPlane
new_plane frame_fd has_data_plane modes = record {
  ring = new_ring;
  frame_fd = frame_fd;
  has_data_plane = has_data_plane;
  supported_modes = take max_modes modes;
  table = Table.init;
  pending_grant_target = none;
  evicting_slot = none;
  eviction_deadline_monotonic = zero_time;
  effects = [];
}

-- wisps_admin_client_state_t
pub data AdminState : Type 0 where
  admin_connected admin_negotiated admin_queued admin_granted_warmup : AdminState
  admin_active_rt admin_evicting_cooperative admin_evicting_forced admin_rejected : AdminState

abbrev pub translate_state : SessionState → AdminState
translate_state connected = admin_connected
translate_state negotiated = admin_negotiated
translate_state queued = admin_queued
translate_state granted_warmup = admin_granted_warmup
translate_state active_rt = admin_active_rt
translate_state evicting_cooperative = admin_evicting_cooperative
translate_state evicting_forced = admin_evicting_forced
translate_state rejected = admin_rejected

pub record AdminClientInfo : Type 0 where
  pub client_id : Text
  pub state : AdminState
  pub negotiated_mode : RenderMode
  pub payload_kind : PayloadKind

abbrev pub max_admin_clients : ℕ
max_admin_clients = 8

abbrev pub info_of : Session → AdminClientInfo
info_of s = record {
  client_id = take 31 s.client_id;
  state = translate_state s.state;
  negotiated_mode = s.negotiated_mode;
  payload_kind = s.payload_kind;
}

-- The loop with `count` entries filled in.
abbrev pub list_from : ℕ → List Session → List AdminClientInfo
list_from count [] = []
list_from count (s ∷ rest) =
    let filled = info_of s ∷ list_from (suc count) rest in
    let skipped = list_from count rest in
    if ltb count max_admin_clients then (if s.in_use then filled else skipped) else []

abbrev pub handle_list_query : ControlPlane → List AdminClientInfo
handle_list_query cp = list_from 0 cp.table.slots

-- The reason of a refusal, or `none` for ok.
pub data SwitchResponse : Type 0 where
  switched app_not_connected app_not_switchable : SwitchResponse

abbrev pub switch_to : ControlPlane → Timespec → ℕ → SwitchResponse × ControlPlane
switch_to cp now idx =
    if is_active_rt (slot_at cp.table idx).state
    then (switched, cp)
    else if may_be_granted (slot_at cp.table idx).state
    then (switched, grant_slot cp now idx)
    else (app_not_switchable, cp)

abbrev pub switch_found : ControlPlane → Timespec → Option ℕ → SwitchResponse × ControlPlane
switch_found cp now none = (app_not_connected, cp)
switch_found cp now (some idx) = switch_to cp now idx

abbrev pub handle_switch_query : ControlPlane → Timespec → Text → SwitchResponse × ControlPlane
handle_switch_query cp now name = switch_found cp now (find_by_client_id cp.table name)

abbrev pub accept_into : ControlPlane → ℕ → Option ℕ × SessionTable → ControlPlane
accept_into cp fd (none, t) = emit (closes (some fd)) cp
accept_into cp fd (some idx, t) = with_table cp t

-- A connection that was accepted.
abbrev pub accept : ControlPlane → ℕ → ControlPlane
accept cp fd = accept_into cp fd (Table.add cp.table fd)

abbrev pub time_out : ControlPlane → Timespec → Option ℕ × SessionTable → ControlPlane
time_out cp now (none, t) = with_table cp t
time_out cp now (some idx, t) =
    let dead = evict_and_kick (with_table cp t) in
    maybe_grant_next_queued
      (emit (sends (fd_of dead idx) deactivate_msg)
        (emit (sends (fd_of dead idx) liveness_timeout) dead))
      now

abbrev pub check_heartbeats : ControlPlane → Timespec → ControlPlane
check_heartbeats cp now = time_out cp now (check_heartbeat_timeouts cp.table now)

-- `sec_diff * 1000 + nsec_diff / 1000000 >= 0`
abbrev pub deadline_passed : Timespec → Timespec → Bool
deadline_passed now deadline = leb (ms_down now deadline) (ms_up now deadline)

abbrev pub force_out : ControlPlane → ℕ → ControlPlane
force_out cp idx = record cp {
  evicting_slot = none;
  table = Table.reclaim_eviction (Table.mark_eviction_forced cp.table idx) idx;
}

abbrev pub force_evicting : ControlPlane → Timespec → Option ℕ → ControlPlane
force_evicting cp now none = cp
force_evicting cp now (some idx) =
    if deadline_passed now cp.eviction_deadline_monotonic
    then maybe_grant_next_queued (finish_pending_grant (force_out cp idx)) now
    else cp

abbrev pub check_deadline : ControlPlane → Timespec → ControlPlane
check_deadline cp now = force_evicting cp now cp.evicting_slot

-- The end of each turn, after the messages.
abbrev pub tick : ControlPlane → Timespec → ControlPlane
tick cp now = check_deadline (check_heartbeats cp now) now

-- What one descriptor of the poll set brings, and the end of the turn.
pub data Event : Type 0 where
  accepted : ℕ → Event
  readable : ℕ → Received → Event
  hung_up : ℕ → Event
  list_query : Event
  switch_query : Text → Event
  turn_ends : Event

abbrev pub handle : ControlPlane → Timespec → Event → ControlPlane
handle cp now (accepted fd) = accept cp fd
handle cp now (readable idx m) = handle_readable cp now idx m
handle cp now (hung_up idx) = handle_disconnect cp now idx
handle cp now list_query = cp
handle cp now (switch_query name) = (handle_switch_query cp now name).1
handle cp now turn_ends = tick cp now
