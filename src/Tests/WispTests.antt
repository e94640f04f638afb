-- ===== src/Tests/WispTests.antt =====
-- Runs of the control plane of wisp/server and of the framing of wisp/protocol on small inputs.
use pi_ghost.Base.{length}
use pi_ghost.Base.{
  ℕ, zero, suc, ◌≤◌, ◌≡◌, ◌↔◌, ◌≢◌, refl, ap, ◌∙◌, Text, true, false, List, [], ◌∷◌, ◌++◌, none,
  some, inl, codes, arith,
}
use pi_ghost.Wisp.Types.{
  Timespec, RenderMode, negotiated, queued, granted_warmup, active_rt, evicting_cooperative,
  ConnectMsg,
}
use pi_ghost.Wisp.Table.{slot_at, rt_slot_taken}
use pi_ghost.Wisp.Queue.{find_next_queued, queue_position}
use pi_ghost.Wisp.Control.{ControlPlane, sends, closes, version_mismatch}
use pi_ghost.Wisp.Handlers.{
  connect, activate_request, ready_for_rt, grant_decline, stopped, lost, protocol_magic,
}
use pi_ghost.Wisp.Loop.{
  new_plane, Event, accepted, readable, hung_up, switch_query, turn_ends, handle, tick,
}
use pi_ghost.Wisp.Listing.{infos, handle_list_query-infos}
use pi_ghost.Wisp.Loop.{check_heartbeats, handle_switch_query, handle_list_query}
use pi_ghost.Wisp.Arbiter.Heartbeat.{check_heartbeats_kept, check_heartbeats-IsPassedOn, IsPassedOn}
use pi_ghost.Wisp.Table
use pi_ghost.Wisp.Arbiter.Switch.{IsAnswered, handle_switch_query-IsAnswered}
use pi_ghost.Wisp.Ring.{new_ring, write_slot, evict_client}
use pi_ghost.Wisp.Ring.Tearing.{
  World, idle_world, Turns, no_turn, next_turn, claims, stamps, publishes, checks_out, Turns-apart,
}
use pi_ghost.Wisp.Arbiter.{
  vacant, warming, running, winding, IsIn, Follows, role, role_of, role_in, bystander,
}
use pi_ghost.Wisp.Arbiter.Runs.{
  run_events, AreDue, repeat_slot-free, run_events-one_holder, run_events-named_slots,
}
use pi_ghost.Wisp.Handlers.{handle_stopped}
use pi_ghost.Wisp.Types.{evicting_forced}
use pi_ghost.Wisp.Queue.Order.{IsNext, find_next_queued-IsNext}
use pi_ghost.Wisp.Queue.Places.{queue_position-next}
use pi_ghost.Wisp.Arbiter.Turns.{handle-Follows}
use pi_ghost.Wisp.Arbiter.Service.{IsServed}
use pi_ghost.Wisp.Arbiter.Fairness.{handle-IsServed}
use pi_ghost.Wisp.Arbiter.Stopped.{handle_stopped-unserved}
use pi_ghost.Wisp.Arbiter.Handover.{tick-hands_over}
use pi_ghost.Wisp.Wire.{
  header, Answer, Bytes, closed, moves, interrupted, returned, ctrl_send, ctrl_send_fds, ctrl_recv,
  ctrl_recv_fds, message, too_large, recv_all,
}
use pi_ghost.Wisp.Wire.Chunks.{IsWhole, recv_all-IsWhole}
use pi_ghost.Wisp.Wire.Frames.{received, ctrl_recv-misread}
use pi_ghost.Wisp.Wire.Delivered.{ctrl_send-delivered, ctrl_send_fds-delivered}
use pi_ghost.Wisp.Channel.{Threads, waiting}
use pi_ghost.Wisp.Wire.Passing.{handed}
use pi_ghost.Wisp.Wire.Leaks.{Result, IsAccounted, ctrl_recv_fds-ends}

abbrev pub seconds : ℕ → Timespec
seconds n = record { tv_sec = n; tv_nsec = 0 }

abbrev pub wide : RenderMode
wide = record { width = 640; height = 480; fps = 30 }

abbrev pub start : ControlPlane
start = new_plane 9 true (wide ∷ [])

abbrev pub hello : Text → ConnectMsg
hello name = record {
  protocol_magic = protocol_magic;
  protocol_major = 0;
  protocol_minor = 0;
  client_id = name;
  modes = wide ∷ [];
}

abbrev pub run : ControlPlane → List (ℕ × Event) → ControlPlane
run cp [] = cp
run cp ((t, e) ∷ es) = run (handle cp (seconds t) e) es

abbrev pub joined : List (ℕ × Event)
joined =
    (0, accepted 20)
    ∷ (0, accepted 21)
    ∷ (0, accepted 22)
    ∷ (0, readable 0 (connect (some (hello (codes "a")))))
    ∷ (0, readable 1 (connect (some (hello (codes "b")))))
    ∷ (0, readable 2 (connect (some (hello (codes "c")))))
    ∷ []

-- The first has the slot, the second and the third wait.
abbrev pub busy : ControlPlane
busy = run start (
    joined
    ++ (1, readable 0 activate_request)
      ∷ (1, readable 0 ready_for_rt)
      ∷ (2, readable 1 activate_request)
      ∷ (3, readable 2 activate_request)
      ∷ [])

-- The first winds down for the third.
abbrev evicting : ControlPlane
evicting = run busy ((4, switch_query (codes "c")) ∷ [])

busy_states :
    ((slot_at busy.table 0).state ≡ active_rt)
    × ((slot_at busy.table 1).state ≡ queued)
    × (queue_position busy.table 1 ≡ 1)
    × (queue_position busy.table 2 ≡ 2)
busy_states = (refl, refl, refl, refl)

-- A payload of the wrong length is answered with VERSION_MISMATCH.
malformed_connect :
    (run start ((0, accepted 20) ∷ (0, readable 0 (connect none)) ∷ [])).effects
    ≡ closes (some 20) ∷ sends (some 20) (version_mismatch protocol_magic 0) ∷ []
malformed_connect = refl

later-running : (j : ℕ) → bystander ≡ role_in (running 0) (suc j)
later-running j = ground arith

later-winding : (j : ℕ) → bystander ≡ role_in (winding 0) (suc j)
later-winding j = ground arith

pub busy-IsIn : IsIn busy (running 0)
busy-IsIn = record { roles = roles; active = refl; evicting = refl }
  where
    roles : (j : ℕ) → role busy j ≡ role_in (running 0) j
    roles zero = refl
    roles (suc zero) = refl
    roles (suc (suc zero)) = refl
    roles (suc (suc (suc j))) =
        ap (λ s. role_of s.in_use s.state) (repeat_slot-free 5 j) ∙ later-running (suc (suc j))

evicting-IsIn : IsIn evicting (winding 0)
evicting-IsIn = record { roles = roles; active = refl; evicting = refl }
  where
    roles : (j : ℕ) → role evicting j ≡ role_in (winding 0) j
    roles zero = refl
    roles (suc zero) = refl
    roles (suc (suc zero)) = refl
    roles (suc (suc (suc j))) =
        ap (λ s. role_of s.in_use s.state) (repeat_slot-free 5 j) ∙ later-winding (suc (suc j))

evicting_states :
    ((slot_at evicting.table 0).state ≡ evicting_cooperative)
    × (evicting.pending_grant_target ≡ some 2)
    × (evicting.eviction_deadline_monotonic ≡ seconds 5)
evicting_states = (refl, refl, refl)

-- At the deadline the third gets the slot; the second still waits.
deadline_states :
    let cp = tick evicting (seconds 5) in
    ((slot_at cp.table 0).state ≡ negotiated)
    × ((slot_at cp.table 1).state ≡ queued)
    × ((slot_at cp.table 2).state ≡ granted_warmup)
deadline_states = (refl, refl, refl)

-- The target of the eviction is gone when STOPPED arrives, and the second waits on.
abbrev lonely : ControlPlane
lonely = run evicting ((4, hung_up 2) ∷ (4, readable 0 stopped) ∷ [])

lonely_states : ((slot_at lonely.table 1).state ≡ queued) × (rt_slot_taken lonely.table ≡ false)
lonely_states = (refl, refl)

-- The second waits, and the target of the eviction is gone.
abbrev abandoned : ControlPlane
abandoned = run evicting ((4, hung_up 2) ∷ [])

abandoned-IsIn : IsIn abandoned (winding 0)
abandoned-IsIn = record { roles = roles; active = refl; evicting = refl }
  where
    roles : (j : ℕ) → role abandoned j ≡ role_in (winding 0) j
    roles zero = refl
    roles (suc zero) = refl
    roles (suc (suc zero)) = refl
    roles (suc (suc (suc j))) =
        ap (λ s. role_of s.in_use s.state) (repeat_slot-free 5 j) ∙ later-winding (suc (suc j))

-- A switch during the warm-up of another is remembered, and is still not applied when that one
-- declines.
abbrev forgotten : ControlPlane
forgotten = run start (
    joined
    ++ (1, readable 0 activate_request)
      ∷ (2, switch_query (codes "c"))
      ∷ (3, readable 0 grant_decline)
      ∷ [])

forgotten_states :
    (forgotten.pending_grant_target ≡ some 2) × (rt_slot_taken forgotten.table ≡ false)
forgotten_states = (refl, refl)

-- A second CONNECT of a session that winds down lets two sessions hold the slot.
abbrev doubled : ControlPlane
doubled = run evicting (
    (4, readable 0 (connect (some (hello (codes "a")))))
    ∷ (4, readable 1 lost)
    ∷ (4, readable 0 activate_request)
    ∷ (4, accepted 23)
    ∷ (4, readable 1 (connect (some (hello (codes "b")))))
    ∷ (4, readable 0 ready_for_rt)
    ∷ (5, turn_ends)
    ∷ [])

doubled_states :
    ((slot_at doubled.table 0).state ≡ active_rt)
    × ((slot_at doubled.table 2).state ≡ granted_warmup)
doubled_states = (refl, refl)

handle-Follows_example : Follows (running 0) (handle busy (seconds 4) (hung_up 0))
handle-Follows_example = handle-Follows busy (seconds 4) (running 0) (hung_up 0) busy-IsIn refl

abbrev until_granted : List (Timespec × Event)
until_granted =
    (seconds 0, accepted 20)
    ∷ (seconds 0, readable 0 (connect (some (hello (codes "a")))))
    ∷ (seconds 1, readable 0 activate_request)
    ∷ (seconds 1, readable 0 ready_for_rt)
    ∷ []

abbrev granted : ControlPlane
granted = run_events start until_granted

until_granted-AreDue : AreDue start until_granted
until_granted-AreDue =
    (tt, ((refl, λ e. refl), ((refl, λ e. ground arith), ((refl, λ e. ground arith), tt))))

run_events-one_holder_example : ◌≡◌ {A = ℕ} 0 0
run_events-one_holder_example =
    run_events-one_holder 9 true (wide ∷ []) until_granted 0 0 until_granted-AreDue (refl, refl)
      (refl, refl)

run_events-named_slots_example :
    let s = slot_at granted.table 0 in
    ((granted.table.active_slot ≡ some 0) ↔ ((s.in_use ≡ true) × (s.state ≡ active_rt)))
    × ((granted.evicting_slot ≡ some 0) ↔ ((s.in_use ≡ true) × (s.state ≡ evicting_cooperative)))
    × (¬ ((s.in_use ≡ true) × (s.state ≡ evicting_forced)))
run_events-named_slots_example =
    run_events-named_slots 9 true (wide ∷ []) until_granted 0 until_granted-AreDue

handle-IsServed_example : IsServed (handle busy (seconds 4) (hung_up 0))
handle-IsServed_example =
    handle-IsServed busy (seconds 4) (running 0) (hung_up 0) busy-IsIn refl (λ p. ground arith)
      (inl refl)

handle_stopped-unserved_example :
    IsIn (handle_stopped abandoned 0) vacant × ¬ IsServed (handle_stopped abandoned 0)
handle_stopped-unserved_example = handle_stopped-unserved abandoned 0 1 abandoned-IsIn refl refl

find_next_queued-IsNext_example : IsNext busy.table (find_next_queued busy.table)
find_next_queued-IsNext_example = find_next_queued-IsNext busy.table

queue_position-next_example :
    (queue_position busy.table 1 ≡ 1) ↔ (find_next_queued busy.table ≡ some 1)
queue_position-next_example = queue_position-next busy.table 1

tick-hands_over_example : IsIn (tick evicting (seconds 5)) (warming 2)
tick-hands_over_example =
    tick-hands_over evicting 0 2 evicting-IsIn refl (refl, refl) (seconds 5) (omega arith)
      (omega arith) (omega arith)

-- A message of three bytes, which the kernel takes and gives in pieces.
abbrev pub pieces : List Answer
pieces =
    moves 0
    ∷ interrupted
    ∷ moves 1
    ∷ moves 0
    ∷ moves 3
    ∷ moves 9
    ∷ moves 0
    ∷ moves 1
    ∷ moves 2
    ∷ moves 5
    ∷ []

abbrev payload : List ℕ
payload = 7 ∷ 8 ∷ 9 ∷ []

abbrev on_the_wire : List ℕ
on_the_wire = 6 ∷ 0 ∷ 0 ∷ 0 ∷ 3 ∷ payload

sent :
    ctrl_send pieces 6 payload ≡ returned (on_the_wire, moves 0 ∷ moves 1 ∷ moves 2 ∷ moves 5 ∷ [])
sent = refl

ctrl_send-delivered_example :
    (out : Bytes) × (left rest : List Answer) × (ctrl_send pieces 6 payload ≡ returned (out, left))
    × (ctrl_recv pieces (out ++ 1 ∷ []) 4096 ≡ received (message 6 payload) (1 ∷ []) rest)
ctrl_send-delivered_example =
    ctrl_send-delivered pieces pieces 6 4096 payload (1 ∷ []) (omega arith) (omega arith)
      (omega arith) tt (omega arith) tt (omega arith)

abbrev one_by_one : ℕ → List Answer
one_by_one zero = []
one_by_one (suc n) = moves 0 ∷ one_by_one n

-- The payload of a message of kind 7 that does not fit has a message of kind 6 in it.
ctrl_recv-misread_example :
    (next rest : List Answer) × (ctrl_recv
        (one_by_one 12)
        (header 7 8 ++ ((header 6 1 ++ (9 ∷ 1 ∷ 2 ∷ [])) ++ 5 ∷ []))
        4
      ≡ received (too_large 7) ((header 6 1 ++ (9 ∷ 1 ∷ 2 ∷ [])) ++ 5 ∷ []) next)
    × (ctrl_recv next ((header 6 1 ++ (9 ∷ 1 ∷ 2 ∷ [])) ++ 5 ∷ []) 4
        ≡ received (message 6 (9 ∷ [])) (1 ∷ 2 ∷ 5 ∷ []) rest)
ctrl_recv-misread_example =
    ctrl_recv-misread (one_by_one 12) 7 6 4 (9 ∷ []) (1 ∷ 2 ∷ []) (header 6 1 ++ (9 ∷ 1 ∷ 2 ∷ []))
      (5 ∷ []) refl (omega arith) (omega arith) (omega arith) (omega arith) (omega arith) tt
      (omega arith)

-- The header leaves in two pieces.
sent_fds :
    ctrl_send_fds (interrupted ∷ pieces) 6 payload (30 ∷ 31 ∷ [])
    ≡ returned ((on_the_wire, moves 0 ∷ moves 1 ∷ moves 2 ∷ moves 5 ∷ []), 30 ∷ 31 ∷ [])
sent_fds = refl

ctrl_send_fds-delivered_example :
    (out : Bytes) × (left rest : List Answer) × (passed : List ℕ) × (ctrl_send_fds pieces 6 payload
        (30 ∷ 31 ∷ [])
      ≡ returned ((out, left), passed))
    × (ctrl_recv_fds pieces (out ++ 1 ∷ []) 4096 3 passed
        ≡ handed (message 6 payload) (1 ∷ []) rest (30 ∷ 31 ∷ []))
ctrl_send_fds-delivered_example =
    ctrl_send_fds-delivered pieces pieces 6 4096 3 payload (1 ∷ []) (30 ∷ 31 ∷ []) (omega arith)
      (omega arith) (omega arith) (omega arith) (omega arith) tt (omega arith) tt (omega arith)

recv_all-IsWhole_example : IsWhole pieces on_the_wire 5 [] (recv_all pieces on_the_wire 5 [])
recv_all-IsWhole_example = recv_all-IsWhole pieces on_the_wire 5 [] (omega arith) tt (omega arith)

-- The stream ends within the payload, and there is room for three descriptors.
ctrl_recv_fds-ends_example :
    (r : Result) × (ctrl_recv_fds
        (moves 1 ∷ moves 2 ∷ closed ∷ [])
        (6 ∷ 0 ∷ 0 ∷ 0 ∷ 3 ∷ [])
        4096
        3
        (30 ∷ 31 ∷ 32 ∷ 33 ∷ [])
      ≡ returned r)
    × IsAccounted (30 ∷ 31 ∷ 32 ∷ 33 ∷ []) r
ctrl_recv_fds-ends_example =
    ctrl_recv_fds-ends (moves 1 ∷ moves 2 ∷ closed ∷ []) (6 ∷ 0 ∷ 0 ∷ 0 ∷ 3 ∷ []) 4096 3
      (30 ∷ 31 ∷ 32 ∷ 33 ∷ []) (6 ∷ 0 ∷ [], 0 ∷ 0 ∷ 3 ∷ [], moves 2 ∷ closed ∷ []) refl
      (tt, omega arith)

-- The first buffer is published, the server reads it, and the client writes the second one.
abbrev reading_first : World
reading_first = record {
  ring = record new_ring {
    latest_ready = some 0;
    server_locked = some 0;
    client_locked = some 1;
    frame_id = 5 ∷ 0 ∷ 0 ∷ [];
    write_ts_ns = 70 ∷ 0 ∷ 0 ∷ [];
  };
  writing = some 1;
  reading = some 0;
}

reading_first-Turns : Turns idle_world reading_first
reading_first-Turns = next_turn (claims idle_world refl) (
    next_turn (stamps _ 0 5 70 refl) (
      next_turn (publishes _ 0 refl)
        (next_turn (checks_out _ refl) (next_turn (claims _ refl) no_turn))))

Turns-apart_example : (reading_first.ring.latest_ready ≢ some 1) × (reading_first.reading ≢ some 1)
Turns-apart_example = Turns-apart reading_first 1 reading_first-Turns refl

-- After an eviction in the middle of a read, the next client is given the buffer that is read.
torn : (write_slot (evict_client reading_first.ring)).0 ≡ reading_first.reading
torn = refl

-- The heartbeat of second 1 is a second old, and then two.
still_alive : check_heartbeats busy (seconds 2) ≡ busy
still_alive =
    check_heartbeats_kept busy (seconds 2) 0 busy-IsIn (omega arith) (omega arith) (omega arith)

check_heartbeats-IsPassedOn_example :
    IsPassedOn (Table.deactivate busy.table 0) (check_heartbeats busy (seconds 3))
check_heartbeats-IsPassedOn_example =
    check_heartbeats-IsPassedOn busy (seconds 3) 0 busy-IsIn (omega arith) (omega arith)
      (omega arith)

handle_switch_query-IsAnswered_example :
    IsAnswered busy 2 (handle_switch_query busy (seconds 4) (codes "c"))
handle_switch_query-IsAnswered_example =
    handle_switch_query-IsAnswered busy (seconds 4) (running 0) (codes "c") 2 busy-IsIn refl

handle_list_query-infos_example :
    (handle_list_query busy ≡ infos busy.table.slots) × (length (handle_list_query busy) ≤ 8)
handle_list_query-infos_example = handle_list_query-infos busy (omega arith)

-- The first query is served before its byte is written; the second one wakes the control thread up.
abbrev second_query : Threads
second_query = record {
  chan = record { wake = 1; pending = none };
  admin = waiting 1 false;
  control = some 1;
  asked = 2;
  answered = 0 ∷ [];
}
