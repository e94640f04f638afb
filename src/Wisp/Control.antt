-- ===== src/Wisp/Control.antt =====
-- wisp/server/src/control/control_plane.c: the state of the control plane and the grant of the real-time slot. What a call sends, closes or tells the
-- data plane is a list of effects, the latest first; the results of the sends are not read, as in
-- the source. Each call takes one reading of the clock.
use pi_ghost.Base.{
  ℕ, ◌+◌, ◌*◌, ◌-◌, Bool, true, false, List, [], ◌∷◌, Option, none, some, if◌then◌else◌, leb, ◌==◌,
}
use pi_ghost.Wisp.Types.{Timespec, RenderMode, SessionState, negotiated, queued, evict_grace_ms}
use pi_ghost.Wisp.Table.{Session, SessionTable, slot_at, rt_slot_taken, names_slot}
use pi_ghost.Wisp.Table
use pi_ghost.Wisp.Ring.{Ring, evict_client}
use pi_ghost.Wisp.Queue.{find_next_queued}
use Prim.Native.Nat.{◌%◌, ◌/◌}

pub data Message : Type 0 where
  version_mismatch : (required_magic required_major : ℕ) → Message
  -- `accepted` is 1 with a mode, and 0 without.
  mode_reply : Option RenderMode → Message
  activate_grant : (generation frame_fd : ℕ) → Message
  activate_queued : (queue_position : ℕ) → Message
  evict_pending : (grace_ms : ℕ) → Message
  dmabuf_ack : (accepted : ℕ) → Message
  liveness_timeout deactivate_msg : Message

pub data Effect : Type 0 where
  sends : Option ℕ → Message → Effect
  closes : Option ℕ → Effect
  -- `wisps_data_plane_kick` and `wisps_data_plane_set_mode`.
  kicks : Effect
  sets_mode : (width height : ℕ) → Effect

pub record ControlPlane : Type 0 where
  pub ring : Ring
  pub frame_fd : ℕ
  pub has_data_plane : Bool
  pub supported_modes : List RenderMode
  pub table : SessionTable
  pub pending_grant_target : Option ℕ
  pub evicting_slot : Option ℕ
  pub eviction_deadline_monotonic : Timespec
  pub effects : List Effect

abbrev pub emit : Effect → ControlPlane → ControlPlane
emit e cp = record cp { effects = e ∷ cp.effects }

-- `if (cp->dp)`
abbrev pub to_data_plane : Effect → ControlPlane → ControlPlane
to_data_plane e cp = record cp {
  effects = if cp.has_data_plane then e ∷ cp.effects else cp.effects;
}

abbrev pub with_table : ControlPlane → SessionTable → ControlPlane
with_table cp t = record cp { table = t }

-- `cp->table.slots[idx].ctrl_fd`
abbrev pub fd_of : ControlPlane → ℕ → Option ℕ
fd_of cp idx = (slot_at cp.table idx).ctrl_fd

abbrev pub evict_and_kick : ControlPlane → ControlPlane
evict_and_kick cp = to_data_plane kicks (record cp { ring = evict_client cp.ring })

abbrev same_mode : RenderMode → RenderMode → Bool
same_mode a b =
    if a.width == b.width then (if a.height == b.height then a.fps == b.fps else false) else false

abbrev pub find_mode : RenderMode → List RenderMode → Option RenderMode
find_mode m [] = none
find_mode m (s ∷ supported) =
    let later = find_mode m supported in if same_mode m s then some s else later

abbrev or_mode : Option RenderMode → Option RenderMode → Option RenderMode
or_mode (some m) later = some m
or_mode none later = later

abbrev pub negotiate_mode : List RenderMode → List RenderMode → Option RenderMode
negotiate_mode supported [] = none
negotiate_mode supported (m ∷ offered) =
    or_mode (find_mode m supported) (negotiate_mode supported offered)

abbrev send_grant : ControlPlane → ℕ → ControlPlane
send_grant cp idx =
    emit (sends (fd_of cp idx) (activate_grant cp.ring.generation cp.frame_fd))
      (with_table cp (Table.grant cp.table idx cp.ring.generation))

abbrev pub do_grant : ControlPlane → ℕ → ControlPlane
do_grant cp idx =
    to_data_plane
      (sets_mode (slot_at cp.table idx).negotiated_mode.width
        (slot_at cp.table idx).negotiated_mode.height)
      (send_grant (evict_and_kick cp) idx)

abbrev carried : Timespec → Timespec
carried t =
    if leb 1000000000 t.tv_nsec
    then record { tv_sec = t.tv_sec + 1; tv_nsec = t.tv_nsec - 1000000000 }
    else t

abbrev pub deadline_after : Timespec → Timespec
deadline_after now = carried (record {
  tv_sec = now.tv_sec + evict_grace_ms / 1000;
  tv_nsec = now.tv_nsec + (evict_grace_ms % 1000) * 1000000;
})

abbrev pub begin_eviction : ControlPlane → Timespec → ℕ → ℕ → ControlPlane
begin_eviction cp now prev_idx target =
    emit (sends (fd_of cp prev_idx) (evict_pending evict_grace_ms)) (record cp {
      table = Table.begin_eviction cp.table prev_idx;
      evicting_slot = some prev_idx;
      pending_grant_target = some target;
      eviction_deadline_monotonic = deadline_after now;
    })

abbrev pub may_be_granted : SessionState → Bool
may_be_granted negotiated = true
may_be_granted queued = true
may_be_granted _ = false

abbrev pub grant_target : ControlPlane → Option ℕ → ControlPlane
grant_target cp none = cp
grant_target cp (some target) =
    if (slot_at cp.table target).in_use
    then (if may_be_granted (slot_at cp.table target).state then do_grant cp target else cp)
    else cp

abbrev pub finish_pending_grant : ControlPlane → ControlPlane
finish_pending_grant cp =
    grant_target (record cp { pending_grant_target = none }) cp.pending_grant_target

abbrev pub grant_or_remember : ControlPlane → ℕ → ControlPlane
grant_or_remember cp idx =
    if rt_slot_taken cp.table
    then record cp { pending_grant_target = some idx }
    else do_grant cp idx

abbrev pub evict_or_grant : ControlPlane → Timespec → ℕ → Option ℕ → ControlPlane
evict_or_grant cp now idx none = grant_or_remember cp idx
evict_or_grant cp now idx (some prev_active) =
    if prev_active == idx then grant_or_remember cp idx else begin_eviction cp now prev_active idx

abbrev pub grant_slot : ControlPlane → Timespec → ℕ → ControlPlane
grant_slot cp now idx = evict_or_grant cp now idx cp.table.active_slot

abbrev pub grant_next : ControlPlane → Timespec → Option ℕ → ControlPlane
grant_next cp now none = cp
grant_next cp now (some next) = grant_slot cp now next

abbrev pub maybe_grant_next_queued : ControlPlane → Timespec → ControlPlane
maybe_grant_next_queued cp now =
    if rt_slot_taken cp.table then cp else grant_next cp now (find_next_queued cp.table)
