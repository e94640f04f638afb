-- ===== src/Wisp/Client.antt =====
-- wisp/client_sdk/src: a session of a client, and what the application calls on it (client_control.c,
-- client_shm.c). The calls of the system are a list, the latest first; the results of wisp_ctrl_send
-- are not read, except for an announcement.
pub mod Connect
pub mod Thread
pub mod Usable
pub mod Stale
pub mod Held
pub mod Waiting
use pi_ghost.Base.{
  ℕ, zero, suc, ◌+◌, ◌*◌, Bool, true, false, ◌||◌, List, [], ◌∷◌, Option, none, some, if◌then◌else◌,
  leb, ◌==◌,
}
use pi_ghost.Wisp.Types.{
  Timespec, RenderMode, PayloadKind, pixels, dmabuf, ConnectMsg, zero_mode, num_buffers,
}
use pi_ghost.Wisp.Dmabuf.{DmabufDesc, DmabufAnnounceMsg}
use pi_ghost.Wisp.Ring.{Ring, write_slot, publish_slot}
use Prim.Native.Nat.{◌%◌, ◌^◌}

pub data ClientMessage : Type 0 where
  connect_msg : ConnectMsg → ClientMessage
  activate_request_msg ready_for_rt_msg stopped_msg disconnect_msg : ClientMessage
  heartbeat_msg : (generation frame_counter : ℕ) → ClientMessage
  dmabuf_announce_msg : DmabufAnnounceMsg → List ℕ → ClientMessage

pub data ClientCall : Type 0 where
  sends_msg : ClientMessage → ClientCall
  closes_fd : ℕ → ClientCall
  unmaps signals : ClientCall

-- 0, 1 and -1
pub data AckState : Type 0 where
  ack_pending ack_accepted ack_refused : AckState

-- `ring` is whether the shared ring is mapped. The id stands in the CONNECT alone.
pub record Client : Type 0 where
  pub ctrl_fd : ℕ
  pub ring : Bool
  pub active : Bool
  pub running : Bool
  pub granted_generation : ℕ
  pub mode : RenderMode
  pub frame_fd : Option ℕ
  pub payload_kind : PayloadKind
  pub dmabuf_ack_state : AckState
  pub calls : List ClientCall

abbrev pub does : ClientCall → Client → Client
does c ctx = record ctx { calls = c ∷ ctx.calls }

abbrev pub send : ClientMessage → Client → Client
send m ctx = does (sends_msg m) ctx

-- `if (fd >= 0) close(fd)`
abbrev pub close_if : Option ℕ → Client → Client
close_if none ctx = ctx
close_if (some fd) ctx = does (closes_fd fd) ctx

-- wispc_shm_attach: whether a segment appears within the tries that are left, and can be mapped.
abbrev pub shm_attach : (ℕ → Bool) → Bool → ℕ → Bool
shm_attach opens maps zero = false
shm_attach opens maps (suc tries) =
    let rest = shm_attach opens maps tries in if opens tries then maps else rest

abbrev pub with_ring : Bool → Client → Client
with_ring attached ctx = record ctx { ring = ctx.ring || attached }

-- The old descriptor is closed, and stands in the field until the new one does.
abbrev pub close_old : Client → Client
close_old ctx = close_if ctx.frame_fd ctx

abbrev pub store_fd : ℕ → Client → Client
store_fd fd ctx = record ctx { frame_fd = some fd }

abbrev pub with_generation : ℕ → Client → Client
with_generation generation ctx = record ctx { granted_generation = generation }

abbrev pub activated : Client → Client
activated ctx = record ctx { active = true }

-- The steps of wispc_handle_grant once the ring is mapped, in their order; between two of them the
-- other threads may look.
abbrev pub grant_steps : ℕ → ℕ → List (Client → Client)
grant_steps generation fd =
    close_old ∷ store_fd fd ∷ with_generation generation ∷ activated ∷ send ready_for_rt_msg ∷ []

abbrev pub run_steps : List (Client → Client) → Client → Client
run_steps [] ctx = ctx
run_steps (step ∷ steps) ctx = run_steps steps (step ctx)

abbrev pub taken_if : Bool → ℕ → ℕ → Client → Bool × Client
taken_if true generation fd ctx = (true, run_steps (grant_steps generation fd) ctx)
taken_if false generation fd ctx = (false, does (closes_fd fd) ctx)

abbrev pub take_grant : ℕ → Option ℕ → Client → Bool × Client
take_grant generation none ctx = (false, ctx)
take_grant generation (some fd) ctx = taken_if ctx.ring generation fd ctx

-- wispc_handle_grant: whether it returns 0. `attached` is what wispc_shm_attach gives if it is called.
abbrev pub handle_grant : Bool → ℕ → Option ℕ → Client → Bool × Client
handle_grant attached generation frame_fd ctx =
    take_grant generation frame_fd (with_ring attached ctx)

abbrev pub client_write_slot : Ring → Option ℕ × Ring
client_write_slot ring = write_slot ring

-- `now.tv_sec * 1000000000ULL + now.tv_nsec`
abbrev pub time_ns : Timespec → ℕ
time_ns now = (now.tv_sec * 1000000000 + now.tv_nsec) % 2 ^ 64

abbrev pub signal : Option ℕ → Client → Client
signal none ctx = ctx
signal (some fd) ctx = does signals ctx

-- wispc_publish, with the shared ring. The test of the generation and the publish are one step
-- here; in the code the server may evict the client in between.
abbrev pub publish : Timespec → ℕ → ℕ → Client → Ring → Client × Ring
publish now idx frame_id ctx ring =
    if ctx.active
    then (if ring.generation == ctx.granted_generation
        then (signal ctx.frame_fd ctx, publish_slot ring idx frame_id (time_ns now))
        else (record ctx { active = false }, ring))
    else (ctx, ring)

abbrev pub announcement : List DmabufDesc → DmabufAnnounceMsg
announcement desc = record { nbufs = num_buffers; desc = desc }

abbrev pub announce : List ℕ → List DmabufDesc → Client → Client
announce fds desc ctx =
    send (dmabuf_announce_msg (announcement desc) fds)
      (record ctx { dmabuf_ack_state = ack_pending })

-- 0, -2 and -1, and a wait that has not ended.
pub data Announced : Type 0 where
  taken refused_by_server not_answered still_waiting : Announced

-- `timeout_ms >= 0 && waited_ms >= timeout_ms`
abbrev out_of_time : Option ℕ → ℕ → Bool
out_of_time none waited = false
out_of_time (some limit) waited = leb limit waited

-- The loop of wispc_announce_dmabufs on the states that it reads, five milliseconds apart.
abbrev pub wait_for_ack : Option ℕ → List AckState → ℕ → Announced
wait_for_ack limit [] waited = still_waiting
wait_for_ack limit (ack_accepted ∷ states) waited = taken
wait_for_ack limit (ack_refused ∷ states) waited = refused_by_server
wait_for_ack limit (ack_pending ∷ states) waited =
    let later = wait_for_ack limit states (waited + 5) in
    if out_of_time limit waited then not_answered else later

-- The whole call; `sent` is the result of wisp_ctrl_send_fds.
abbrev pub announce_dmabufs :
    Bool → Option ℕ → List AckState → List ℕ → List DmabufDesc → Client → Announced × Client
announce_dmabufs sent limit states fds desc ctx =
    (if sent then wait_for_ack limit states 0 else not_answered, announce fds desc ctx)

abbrev pub unmap_if : Bool → Client → Client
unmap_if true ctx = does unmaps ctx
unmap_if false ctx = ctx

-- wispc_disconnect, after the thread has ended.
abbrev pub disconnect_client : Client → Client
disconnect_client ctx = close_if ctx.frame_fd (
    unmap_if ctx.ring
      (does (closes_fd ctx.ctrl_fd) (send disconnect_msg (record ctx { running = false }))))
