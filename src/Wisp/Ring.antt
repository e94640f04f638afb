-- ===== src/Wisp/Ring.antt =====
-- wisp/protocol/include/wisp/wire.h and wisp/server/src/shm/server_shm.c: the ring of three frame
-- buffers between one client and the server. Each call holds the mutex from its first read to its
-- last write, so it is one step; only wisp_shm_ring_publish_slot writes the id and the time stamp of
-- the buffer before it takes the mutex, which is a step of its own, stamp_slot. An index of -1 is
-- `none`. The pixels are not modelled.
pub mod Tearing
use pi_ghost.Base.{
  ℕ, zero, suc, ◌+◌, Bool, true, false, ◌||◌, List, [], ◌∷◌, Option, none, some, if◌then◌else◌,
  ◌==◌,
}
use Prim.Native.Nat.{◌^◌, ◌%◌}

pub record Ring : Type 0 where
  pub latest_ready : Option ℕ
  pub server_locked : Option ℕ
  pub client_locked : Option ℕ
  pub frame_counter : ℕ
  pub generation : ℕ
  pub frame_id : List ℕ
  pub write_ts_ns : List ℕ

abbrev pub u32 : ℕ → ℕ
u32 n = n % 2 ^ 32

-- wisps_shm_ring_create
abbrev pub new_ring : Ring
new_ring = record {
  latest_ready = none;
  server_locked = none;
  client_locked = none;
  frame_counter = 0;
  generation = 0;
  frame_id = 0 ∷ 0 ∷ 0 ∷ [];
  write_ts_ns = 0 ∷ 0 ∷ 0 ∷ [];
}

abbrev pub evict_client : Ring → Ring
evict_client r = record r {
  generation = u32 (r.generation + 1);
  latest_ready = none;
  server_locked = none;
  client_locked = none;
}

-- `i == index`, for an index that may be -1
abbrev pub is_index : ℕ → Option ℕ → Bool
is_index i none = false
is_index i (some k) = i == k

abbrev pub in_use : Ring → ℕ → Bool
in_use r i = is_index i r.latest_ready || is_index i r.server_locked

-- The first of the buffers from `i` on, `n` in all, that is neither the latest frame nor the
-- server's.
abbrev pub free_buffer : Ring → ℕ → ℕ → Option ℕ
free_buffer r i zero = none
free_buffer r i (suc n) =
    let later = free_buffer r (suc i) n in if in_use r i then later else some i

abbrev pub claim : Ring → Option ℕ → Option ℕ × Ring
claim r none = (none, r)
claim r (some i) = (some i, record r { client_locked = some i })

abbrev pub write_unclaimed : Ring → Option ℕ → Option ℕ × Ring
write_unclaimed r none = claim r (free_buffer r 0 3)
write_unclaimed r (some i) = (none, r)

-- `none` is abort().
abbrev pub write_slot : Ring → Option ℕ × Ring
write_slot r = write_unclaimed r r.client_locked

abbrev pub set_at : List ℕ → ℕ → ℕ → List ℕ
set_at [] i x = []
set_at (y ∷ ys) zero x = x ∷ ys
set_at (y ∷ ys) (suc i) x = y ∷ set_at ys i x

-- wisp_shm_ring_publish_slot up to the mutex.
abbrev pub stamp_slot : Ring → ℕ → ℕ → ℕ → Ring
stamp_slot r idx id now_ns = record r {
  frame_id = set_at r.frame_id idx id;
  write_ts_ns = set_at r.write_ts_ns idx now_ns;
}

-- What it does under the mutex.
abbrev pub make_latest : Ring → ℕ → Ring
make_latest r idx = record r { latest_ready = some idx; client_locked = none }

-- The whole call, if no one else comes in between.
abbrev pub publish_slot : Ring → ℕ → ℕ → ℕ → Ring
publish_slot r idx id now_ns = make_latest (stamp_slot r idx id now_ns) idx

abbrev pub lock : Ring → Option ℕ → Ring
lock r none = r
lock r (some i) = record r { server_locked = some i }

abbrev pub checkout : Ring → Option ℕ × Ring
checkout r = (r.latest_ready, lock r r.latest_ready)

abbrev pub release : Ring → Ring
release r = record r { server_locked = none }
