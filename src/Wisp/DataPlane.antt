-- ===== src/Wisp/DataPlane.antt =====
-- wisp/server/src/dataplane/data_plane.c: the thread that shows the latest frame of the ring. The two
-- eventfds are their counters; what the sink is given is a list, the latest frame first, and whether
-- it takes it is an argument. The readings of the clock fit 64 bits.
pub mod Shown
pub mod Latest
use pi_ghost.Base.{
  ℕ, zero, suc, ◌+◌, ◌-◌, ◌*◌, Bool, true, false, List, [], ◌∷◌, Option, none, some, if◌then◌else◌,
  ltb, get_or,
}
use Prim.Native.Nat.{◌%◌, ◌^◌}
use pi_ghost.Wisp.Ring.{Ring, checkout, release}

-- A call of wisps_fb_sink_blit.
pub record Blit : Type 0 where
  pub width : ℕ
  pub height : ℕ
  pub buffer : ℕ
  pub frame_id : ℕ

pub record DataPlane : Type 0 where
  pub ring : Ring
  pub width : ℕ
  pub height : ℕ
  pub running : Bool
  -- The counters of frame_fd and abort_fd.
  pub frame_signals : ℕ
  pub abort_signals : ℕ
  pub frames_rendered : ℕ
  pub frames_dropped : ℕ
  pub blit_errors : ℕ
  pub last_write_to_render_ns : ℕ
  pub blits : List Blit

abbrev pub data_plane_init : Ring → ℕ → ℕ → DataPlane
data_plane_init ring width height = record {
  ring = ring;
  width = width;
  height = height;
  running = true;
  frame_signals = 0;
  abort_signals = 0;
  frames_rendered = 0;
  frames_dropped = 0;
  blit_errors = 0;
  last_write_to_render_ns = 0;
  blits = [];
}

abbrev pub u64 : ℕ → ℕ
u64 n = n % 2 ^ 64

abbrev pub drop_frame : DataPlane → DataPlane
drop_frame dp = record dp { frames_dropped = u64 (dp.frames_dropped + 1) }

abbrev pub blit_of : DataPlane → ℕ → Blit
blit_of dp idx = record {
  width = dp.width;
  height = dp.height;
  buffer = idx;
  frame_id = get_or dp.ring.frame_id idx 0;
}

-- `write_ts_ns`
abbrev pub stamp_of : DataPlane → ℕ → ℕ
stamp_of dp idx = get_or dp.ring.write_ts_ns idx 0

-- The three parts of a turn with a frame, between which the other threads may run: the checkout, the
-- blit, and the release with the statistics.
abbrev pub check_out : DataPlane → Option ℕ × DataPlane
check_out dp = ((checkout dp.ring).0, record dp { ring = (checkout dp.ring).1 })

abbrev pub blit : ℕ → DataPlane → DataPlane
blit idx dp = record dp { blits = blit_of dp idx ∷ dp.blits }

abbrev pub finish : Bool → ℕ → ℕ → DataPlane → DataPlane
finish false now_ns write_ts_ns dp = record dp {
  ring = release dp.ring;
  blit_errors = u64 (dp.blit_errors + 1);
}
finish true now_ns write_ts_ns dp = record dp {
  ring = release dp.ring;
  frames_rendered = u64 (dp.frames_rendered + 1);
  last_write_to_render_ns = u64 (now_ns + 2 ^ 64 - write_ts_ns);
}

abbrev pub show : Bool → ℕ → Option ℕ → DataPlane → DataPlane
show taken now_ns none dp = drop_frame dp
show taken now_ns (some idx) dp = finish taken now_ns (stamp_of dp idx) (blit idx dp)

abbrev pub show_latest : Bool → ℕ → DataPlane → DataPlane
show_latest taken now_ns dp = show taken now_ns (check_out dp).0 (check_out dp).1

-- The result of epoll_wait: EINTR, another error, or descriptors that can be read.
pub data Wake : Type 0 where
  interrupted destroyed ready : Wake

pub data LoopEnd : Type 0 where
  goes_on ends : DataPlane → LoopEnd

abbrev pub drained : DataPlane → DataPlane
drained dp = record dp { frame_signals = 0; abort_signals = 0 }

-- The rest of a turn of the loop, once epoll_wait has returned.
abbrev pub woken : Wake → Bool → ℕ → DataPlane → LoopEnd
woken interrupted taken now_ns dp = goes_on dp
woken destroyed taken now_ns dp = ends dp
woken ready taken now_ns dp =
    if dp.running
    then (if ltb 0 dp.frame_signals
        then goes_on (show_latest taken now_ns (drained dp))
        else goes_on (drained dp))
    else ends dp

abbrev pub kick : DataPlane → DataPlane
kick dp = record dp { abort_signals = suc dp.abort_signals }

abbrev pub stop : DataPlane → DataPlane
stop dp = kick (record dp { running = false })

-- wisps_data_plane_set_mode; the sink is opened again, and a failure is only printed.
abbrev pub set_mode : ℕ → ℕ → DataPlane → DataPlane
set_mode width height dp = record dp { width = width; height = height }
