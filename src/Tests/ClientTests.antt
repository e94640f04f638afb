-- ===== src/Tests/ClientTests.antt =====
-- The client library of wisp/, the data plane, the file sink and the admin plane at fixed inputs.
use mathlib.Core.List.{Perm}
use pi_ghost.Base.{
  ℕ, zero, suc, ◌+◌, ◌*◌, ◌≤◌, ◌≡◌, ◌⊎◌, refl, Bool, true, false, List, [], ◌∷◌, ◌++◌, none, some,
  arith, Text, codes, All, length, drop,
}
use pi_ghost.Wisp.Ring.{Ring, new_ring}
use pi_ghost.Wisp.Client.{
  Client, ack_pending, ack_accepted, taken, not_answered, wait_for_ack, publish, disconnect_client,
}
use pi_ghost.Wisp.Client.Thread.{activate_grant, evict_pending, mode_reply, Incoming, got, receive}
use pi_ghost.Wisp.Client.Connect.{
  Attempt, refused, connected, Connected, session, connect_client, new_client,
}
use pi_ghost.Wisp.Client.Usable.{IsUsable, seen, no_step, next_step, receives, seen-Steps}
use pi_ghost.Wisp.Client.Stale.{evictions, publish-stale}
use pi_ghost.Wisp.Client.Held.{closed_by, receive_all, disconnect-closes}
use pi_ghost.Wisp.Client.Waiting.{wait_for_ack-verdict}
use pi_ghost.Wisp.DataPlane.{data_plane_init, woken, ready, goes_on}
use pi_ghost.Wisp.DataPlane.Shown.{
  Stage, Acts, no_act, next_act, starts_turn, evicts, shows, finishes, first_stage, waits,
  WasStamped, Acts-shown,
}
use pi_ghost.Wisp.DataPlane.Shown
use pi_ghost.Wisp.DataPlane.Latest.{reached, shown, publish-shown}
use pi_ghost.Wisp.FileSink.{FileSink, new_sink, ppm, ppm_header}
use pi_ghost.Wisp.FileSink.Snapshots.{held, removed, record_all, record_all-latest}
use pi_ghost.Wisp.FileSink.Pixels.{IsPixel, ppm-IsPixel}
use pi_ghost.Wisp.Wire.{Answer, Bytes, ctrl_send, returned, moves, closed}
use pi_ghost.Wisp.AdminPlane.{
  switch_request, sends_switch, closes_client, Handled, handle_connection,
}
use pi_ghost.Wisp.AdminPlane.Answers.{
  padded, IsClosed, handle_connection-switch, handle_connection-IsClosed,
}
use pi_ghost.Wisp.Loop.{app_not_connected}
use pi_ghost.Tests.WispTests.{seconds, wide, start}

-- The server comes up in the third round.
abbrev attempts : ℕ → Attempt
attempts zero = refused 3
attempts (suc zero) = refused 4
attempts (suc (suc i)) = connected 5

abbrev mode_answer : Incoming
mode_answer = got (mode_reply (some wide)) none

abbrev first_grant : Incoming
first_grant = got (activate_grant 1) (some 40)

abbrev connecting : Connected
connecting = connect_client attempts true mode_answer first_grant (codes "a") (wide ∷ [])

abbrev client_of : Connected → Client
client_of (session ctx) = ctx
client_of _ = new_client 0 []

abbrev granted : Client
granted = client_of connecting

granted_calls : closed_by granted.calls ≡ 4 ∷ 3 ∷ []
granted_calls = refl

abbrev ring_1 : Ring
ring_1 = evictions 1 new_ring

seen-Steps_example :
    All IsUsable
      (seen true (got (activate_grant 2) (some 41)) (receive true (got evict_pending none) granted))
seen-Steps_example =
    seen-Steps attempts true mode_answer first_grant (codes "a") (wide ∷ []) granted
      (receive true (got evict_pending none) granted) true (got (activate_grant 2) (some 41)) refl
      (next_step (receives true (got evict_pending none) granted) no_step)

publish-stale_example :
    publish (seconds 8) 0 7 granted (evictions 3 ring_1)
    ≡ (record granted { active = false }, evictions 3 ring_1)
publish-stale_example =
    publish-stale 3 (seconds 8) 0 7 granted ring_1 (omega arith) refl (omega arith) (omega arith)

-- The second grant comes without a descriptor, the fourth while no ring can be mapped.
abbrev messages : List (Bool × Incoming)
messages =
    (true, got (activate_grant 1) (some 40))
    ∷ (true, got (activate_grant 2) none)
    ∷ (true, got evict_pending none)
    ∷ (true, got (activate_grant 3) (some 41))
    ∷ []

disconnect-closes_example :
    Perm
      (closed_by (disconnect_client (receive_all messages (new_client 5 []))).calls)
      (5 ∷ 41 ∷ 40 ∷ [])
disconnect-closes_example = disconnect-closes messages (new_client 5 []) refl

-- The answer comes after 15 ms.
wait_for_ack-verdict_example :
    wait_for_ack (some 12) (ack_pending ∷ ack_pending ∷ ack_pending ∷ ack_accepted ∷ []) 0 ≡ taken
wait_for_ack-verdict_example =
    wait_for_ack-verdict 12 (ack_pending ∷ ack_pending ∷ ack_pending ∷ ack_accepted ∷ [])
      (omega arith)

too_late :
    wait_for_ack (some 10) (ack_pending ∷ ack_pending ∷ ack_pending ∷ ack_accepted ∷ []) 0
    ≡ not_answered
too_late = refl

-- A frame is published, checked out, and shown after an eviction.
abbrev after_frame : Stage
after_frame = record {
  dp = record (data_plane_init new_ring 640 480) {
    ring = record ring_1 { frame_id = 0 ∷ 9 ∷ 0 ∷ []; write_ts_ns = 0 ∷ 70 ∷ 0 ∷ [] };
    abort_signals = 1;
    frames_rendered = 1;
    last_write_to_render_ns = 20;
    blits = record { width = 640; height = 480; buffer = 1; frame_id = 9 } ∷ [];
  };
  place = waits;
  stamped = none;
  stamped_ids = 9 ∷ [];
}

to_after_frame : Acts (first_stage 640 480) after_frame
to_after_frame = next_act (Shown.stamps _ 1 9 70 (omega arith)) (
    next_act (Shown.publishes _ 1 refl) (
      next_act (Shown.signals _) (
        next_act (starts_turn _ refl refl (omega arith)) (
          next_act (evicts _)
            (next_act (shows _ 1 refl) (next_act (finishes _ true 90 70 refl) no_act))))))

Acts-shown_example : All (WasStamped (9 ∷ [])) after_frame.dp.blits
Acts-shown_example = Acts-shown 640 480 after_frame to_after_frame

publish-shown_example :
    woken ready true 90
      (reached granted (publish (seconds 0) 1 9 granted ring_1) (data_plane_init ring_1 640 480))
    ≡ goes_on
        (shown (publish (seconds 0) 1 9 granted ring_1).1 1 9 0 90 (data_plane_init ring_1 640 480))
publish-shown_example =
    publish-shown (seconds 0) 1 9 90 40 granted ring_1 (data_plane_init ring_1 640 480) refl refl
      refl (omega arith) (omega arith) refl

abbrev snapshot_names : List Text
snapshot_names = codes "1" ∷ codes "2" ∷ codes "3" ∷ codes "4" ∷ codes "5" ∷ []

abbrev filled : FileSink
filled = record_all (new_sink (codes "out") 10 3) snapshot_names

filled_paths : held filled ≡ codes "3" ∷ codes "4" ∷ codes "5" ∷ []
filled_paths = refl

record_all-latest_example :
    (removed filled.calls ++ held filled ≡ snapshot_names)
    × (length (held filled) ≤ 3)
    × ((removed filled.calls ≡ []) ⊎ (length (held filled) ≡ 3))
record_all-latest_example = record_all-latest (codes "out") 10 3 snapshot_names (omega arith)

-- Two rows of two pixels.
abbrev four_pixels : List ℕ
four_pixels = 1 ∷ 2 ∷ 3 ∷ 0 ∷ 4 ∷ 5 ∷ 6 ∷ 0 ∷ 7 ∷ 8 ∷ 9 ∷ 0 ∷ 10 ∷ 11 ∷ 12 ∷ 0 ∷ []

ppm_of_four :
    ppm 2 2 four_pixels
    ≡ codes "P6\n2 2\n255\n" ++ 3 ∷ 2 ∷ 1 ∷ 6 ∷ 5 ∷ 4 ∷ 9 ∷ 8 ∷ 7 ∷ 12 ∷ 11 ∷ 10 ∷ []
ppm_of_four = refl

ppm-IsPixel_example :
    IsPixel
      (drop (length (ppm_header 2 2)) (ppm 2 2 four_pixels))
      (3 * (1 * 2 + 0))
      four_pixels
      (4 * (1 * 2 + 0))
    × (length (ppm 2 2 four_pixels) ≡ length (ppm_header 2 2) + 3 * (2 * 2))
ppm-IsPixel_example = ppm-IsPixel 2 2 0 1 four_pixels (omega arith) (omega arith) (omega arith)

-- The client closes its end within the payload.
handle_connection-IsClosed_example :
    (h : Handled) × (handle_connection start
        (seconds 1)
        (moves 4 ∷ moves 1 ∷ closed ∷ [])
        (3 ∷ 0 ∷ 0 ∷ 0 ∷ 32 ∷ 103 ∷ 111 ∷ [])
      ≡ some h)
    × IsClosed h.1
handle_connection-IsClosed_example =
    handle_connection-IsClosed start (seconds 1) (moves 4 ∷ moves 1 ∷ closed ∷ [])
      (3 ∷ 0 ∷ 0 ∷ 0 ∷ 32 ∷ 103 ∷ 111 ∷ []) (tt, omega arith)

-- One byte at a time.
abbrev byte_by_byte : ℕ → List Answer
byte_by_byte zero = []
byte_by_byte (suc n) = moves 0 ∷ byte_by_byte n

abbrev switch_bytes : Bytes
switch_bytes = 3 ∷ 0 ∷ 0 ∷ 0 ∷ 32 ∷ padded (codes "gone")

switch_sent :
    ctrl_send (moves 4 ∷ moves 31 ∷ []) switch_request (padded (codes "gone"))
    ≡ returned (switch_bytes, [])
switch_sent = refl

handle_connection-switch_example :
    handle_connection start (seconds 1) (byte_by_byte 40) switch_bytes
    ≡ some (start, sends_switch app_not_connected ∷ closes_client ∷ [])
handle_connection-switch_example =
    handle_connection-switch start (seconds 1) (moves 4 ∷ moves 31 ∷ []) [] (byte_by_byte 40)
      (codes "gone") switch_bytes switch_sent (omega arith, (refl, (refl, (refl, (refl, tt))))) tt
      (omega arith)
