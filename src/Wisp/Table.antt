-- ===== src/Wisp/Table.antt =====
-- wisp/server/src/session/session_table.c: the array of sessions, -1 as `none`. A slot is read
-- and written where the index is in range, which the callers see to.
use pi_ghost.Base.{
  ℕ, zero, suc, ◌+◌, ◌*◌, Bool, true, false, ◌&&◌, ◌||◌, not, List, [], ◌∷◌, Option, none, some,
  if◌then◌else◌, ltb, ◌==◌, get_or, Text, text_eq,
}
use pi_ghost.Wisp.Types.{
  Timespec, zero_time, RenderMode, zero_mode, SessionState, connected, negotiated, granted_warmup,
  active_rt, evicting_cooperative, evicting_forced, PayloadKind, pixels, max_clients,
  heartbeat_timeout_ms,
}
use pi_ghost.Wisp.Dmabuf.{DmabufSet, zero_dmabuf_set, set_close}
use Prim.Native.Nat.{◌-◌, ◌/◌}

pub record Session : Type 0 where
  pub in_use : Bool
  pub ctrl_fd : Option ℕ
  pub client_id : Text
  pub state : SessionState
  pub offered_modes : List RenderMode
  pub num_offered_modes : ℕ
  pub negotiated_mode : RenderMode
  pub negotiated_protocol_minor : ℕ
  pub granted_generation : ℕ
  pub last_heartbeat_monotonic : Timespec
  pub activate_requested_monotonic : Timespec
  pub payload_kind : PayloadKind
  pub dmabuf_set : DmabufSet

pub record SessionTable : Type 0 where
  pub slots : List Session
  pub active_slot : Option ℕ

-- A slot of zeros, which memset writes, with the descriptor that says it is free.
abbrev pub free_slot : Session
free_slot = record {
  in_use = false;
  ctrl_fd = none;
  client_id = [];
  state = connected;
  offered_modes = [];
  num_offered_modes = 0;
  negotiated_mode = zero_mode;
  negotiated_protocol_minor = 0;
  granted_generation = 0;
  last_heartbeat_monotonic = zero_time;
  activate_requested_monotonic = zero_time;
  payload_kind = pixels;
  dmabuf_set = zero_dmabuf_set;
}

-- `table->slots[idx]`
abbrev pub slot_at : SessionTable → ℕ → Session
slot_at t idx = get_or t.slots idx free_slot

abbrev pub update_slots : List Session → ℕ → (Session → Session) → List Session
update_slots [] i f = []
update_slots (s ∷ ss) zero f = f s ∷ ss
update_slots (s ∷ ss) (suc i) f = s ∷ update_slots ss i f

-- Assignments to fields of `table->slots[idx]`.
abbrev pub update : SessionTable → ℕ → (Session → Session) → SessionTable
update t idx f = record t { slots = update_slots t.slots idx f }

abbrev pub set_state : SessionState → Session → Session
set_state x s = record s { state = x }

abbrev pub repeat_slot : ℕ → List Session
repeat_slot zero = []
repeat_slot (suc n) = free_slot ∷ repeat_slot n

abbrev pub init : SessionTable
init = record { slots = repeat_slot max_clients; active_slot = none }

-- The loops that return the first index with a property.
abbrev next_index : Option ℕ → Option ℕ
next_index none = none
next_index (some i) = some (suc i)

abbrev pub find_index : (Session → Bool) → List Session → Option ℕ
find_index p [] = none
find_index p (s ∷ ss) = let later = find_index p ss in if p s then some 0 else next_index later

abbrev pub claimed : ℕ → Session → Session
claimed fd s = record free_slot { in_use = true; ctrl_fd = some fd }

abbrev pub claim : SessionTable → ℕ → Option ℕ → Option ℕ × SessionTable
claim t fd none = (none, t)
claim t fd (some i) = (some i, update t i (claimed fd))

abbrev pub is_free : Session → Bool
is_free s = not s.in_use

abbrev pub add : SessionTable → ℕ → Option ℕ × SessionTable
add t fd = claim t fd (find_index is_free t.slots)

abbrev has_fd : ℕ → Option ℕ → Bool
has_fd fd none = false
has_fd fd (some x) = x == fd

abbrev pub find_by_fd : SessionTable → ℕ → Option ℕ
find_by_fd t fd = find_index (λ s. s.in_use && has_fd fd s.ctrl_fd) t.slots

abbrev pub find_by_client_id : SessionTable → Text → Option ℕ
find_by_client_id t name = find_index (λ s. s.in_use && text_eq s.client_id name) t.slots

abbrev pub set_granted : ℕ → Session → Session
set_granted generation s = record s { state = granted_warmup; granted_generation = generation }

abbrev pub grant : SessionTable → ℕ → ℕ → SessionTable
grant t idx generation = update t idx (set_granted generation)

abbrev pub is_active_rt : SessionState → Bool
is_active_rt active_rt = true
is_active_rt _ = false

-- `table->active_slot == idx`
abbrev pub names_slot : Option ℕ → ℕ → Bool
names_slot none idx = false
names_slot (some i) idx = i == idx

abbrev clear_active : SessionTable → ℕ → SessionTable
clear_active t idx = if names_slot t.active_slot idx then record t { active_slot = none } else t

abbrev pub deactivate : SessionTable → ℕ → SessionTable
deactivate t idx =
    if is_active_rt (slot_at t idx).state
    then clear_active (update t idx (set_state negotiated)) idx
    else t

abbrev deactivate_other : SessionTable → ℕ → Option ℕ → SessionTable
deactivate_other t idx none = t
deactivate_other t idx (some i) = if i == idx then t else deactivate t i

abbrev pub set_active : Timespec → Session → Session
set_active now s = record s { state = active_rt; last_heartbeat_monotonic = now }

abbrev pub activate : SessionTable → ℕ → Timespec → SessionTable
activate t idx now = record (update (deactivate_other t idx t.active_slot) idx (set_active now)) {
  active_slot = some idx;
}

abbrev pub begin_eviction : SessionTable → ℕ → SessionTable
begin_eviction t idx =
    if is_active_rt (slot_at t idx).state
    then clear_active (update t idx (set_state evicting_cooperative)) idx
    else t

abbrev forced : SessionState → SessionState
forced evicting_cooperative = evicting_forced
forced x = x

abbrev pub mark_forced : Session → Session
mark_forced s = set_state (forced s.state) s

abbrev pub mark_eviction_forced : SessionTable → ℕ → SessionTable
mark_eviction_forced t idx = update t idx mark_forced

abbrev reclaimed : SessionState → SessionState
reclaimed evicting_cooperative = negotiated
reclaimed evicting_forced = negotiated
reclaimed x = x

abbrev pub set_reclaimed : Session → Session
set_reclaimed s = set_state (reclaimed s.state) s

abbrev pub reclaim_eviction : SessionTable → ℕ → SessionTable
reclaim_eviction t idx = update t idx set_reclaimed

-- The states that take the real-time slot.
abbrev pub takes_rt : SessionState → Bool
takes_rt granted_warmup = true
takes_rt active_rt = true
takes_rt evicting_cooperative = true
takes_rt evicting_forced = true
takes_rt _ = false

abbrev pub any_taken : List Session → Bool
any_taken [] = false
any_taken (s ∷ ss) = (s.in_use && takes_rt s.state) || any_taken ss

abbrev pub rt_slot_taken : SessionTable → Bool
rt_slot_taken t = any_taken t.slots

abbrev pub released : Session → Session
released s =
    if s.dmabuf_set.valid
    then record s { dmabuf_set = (set_close s.dmabuf_set).0; in_use = false; ctrl_fd = none }
    else record s { in_use = false; ctrl_fd = none }

-- The descriptors of its GPU buffers that the call closes.
abbrev pub removed_fds : Session → List ℕ
removed_fds s = if s.in_use && s.dmabuf_set.valid then (set_close s.dmabuf_set).1 else []

abbrev pub remove : SessionTable → ℕ → SessionTable
remove t idx = if (slot_at t idx).in_use then update (deactivate t idx) idx released else t

-- A difference of milliseconds that may be negative: `up - down`, with the quotient by 1000000
-- rounded to zero as in C.
abbrev pub ms_up : Timespec → Timespec → ℕ
ms_up now then_at = now.tv_sec * 1000 + (now.tv_nsec - then_at.tv_nsec) / 1000000

abbrev pub ms_down : Timespec → Timespec → ℕ
ms_down now then_at = then_at.tv_sec * 1000 + (then_at.tv_nsec - now.tv_nsec) / 1000000

-- `elapsed_ms > WISP_CLIENT_HEARTBEAT_TIMEOUT_MS`
abbrev pub timed_out : Timespec → Timespec → Bool
timed_out now last = ltb (heartbeat_timeout_ms + ms_down now last) (ms_up now last)

abbrev pub check_active : SessionTable → Timespec → Option ℕ → Option ℕ × SessionTable
check_active t now none = (none, t)
check_active t now (some idx) =
    if timed_out now (slot_at t idx).last_heartbeat_monotonic
    then (some idx, deactivate t idx)
    else (none, t)

abbrev pub check_heartbeat_timeouts : SessionTable → Timespec → Option ℕ × SessionTable
check_heartbeat_timeouts t now = check_active t now t.active_slot
