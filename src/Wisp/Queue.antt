-- ===== src/Wisp/Queue.antt =====
-- wisp/server/src/session/session_table.c: the order in which the queued sessions wait, which is
-- derived from the time of each request.
pub mod Order
pub mod Places
use pi_ghost.Base.{
  ℕ, suc, Bool, true, false, ◌&&◌, ◌||◌, not, List, [], ◌∷◌, Option, none, some, if◌then◌else◌, ltb,
  ◌==◌, get_or,
}
use pi_ghost.Wisp.Types.{Timespec, SessionState, queued}
use pi_ghost.Wisp.Table.{Session, SessionTable, slot_at, free_slot}

abbrev is_queued_state : SessionState → Bool
is_queued_state queued = true
is_queued_state _ = false

abbrev pub is_queued : Session → Bool
is_queued s = s.in_use && is_queued_state s.state

abbrev pub ts_less : Timespec → Timespec → Bool
ts_less a b = if a.tv_sec == b.tv_sec then ltb a.tv_nsec b.tv_nsec else ltb a.tv_sec b.tv_sec

abbrev pub better : List Session → ℕ → Session → Option ℕ → Option ℕ
better slots i s none = some i
better slots i s (some best) =
    if ts_less s.activate_requested_monotonic
      (get_or slots best free_slot).activate_requested_monotonic
    then some i
    else some best

-- The loop from index `i` on, with what `best` holds.
abbrev pub next_queued_from : List Session → ℕ → List Session → Option ℕ → Option ℕ
next_queued_from slots i [] best = best
next_queued_from slots i (s ∷ rest) best =
    next_queued_from slots (suc i) rest (if is_queued s then better slots i s best else best)

abbrev pub find_next_queued : SessionTable → Option ℕ
find_next_queued t = next_queued_from t.slots 0 t.slots none

abbrev pub same_time : Timespec → Timespec → Bool
same_time a b = a.tv_sec == b.tv_sec && a.tv_nsec == b.tv_nsec

-- The condition under which the session in slot `i` counts against the one in slot `idx`.
abbrev pub is_ahead : ℕ → Timespec → ℕ → Session → Bool
is_ahead idx time i s =
    (not (i == idx) && is_queued s)
    && (ts_less s.activate_requested_monotonic time
        || (same_time s.activate_requested_monotonic time && ltb i idx))

abbrev pub position_from : ℕ → Timespec → ℕ → List Session → ℕ → ℕ
position_from idx time i [] position = position
position_from idx time i (s ∷ rest) position =
    position_from idx time (suc i) rest (if is_ahead idx time i s then suc position else position)

abbrev pub queue_position : SessionTable → ℕ → ℕ
queue_position t idx =
    if is_queued (slot_at t idx)
    then position_from idx (slot_at t idx).activate_requested_monotonic 0 t.slots 1
    else 0
