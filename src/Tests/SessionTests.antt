-- ===== src/Tests/SessionTests.antt =====
-- A client and the control plane of wisp/ together at fixed inputs.
use pi_ghost.Base.{ℕ, zero, suc, ◌+◌, ◌≡◌, refl, ap, true, false, List, [], ◌∷◌, some, arith}
use pi_ghost.Wisp.Table.{timed_out}
use pi_ghost.Wisp.Ring.{new_ring, publish_slot}
use pi_ghost.Wisp.Control.{ControlPlane, activate_grant, evict_pending, do_grant, grant_slot}
use pi_ghost.Wisp.Loop.{handle, readable}
use pi_ghost.Wisp.Handlers.{stopped}
use pi_ghost.Wisp.Arbiter.{vacant, warming, running, role, role_of, role_in, IsIn}
use pi_ghost.Wisp.Arbiter.Runs.{repeat_slot-free}
use pi_ghost.Wisp.Client.{Client, ready_for_rt_msg, stopped_msg, publish, does, signals, time_ns}
use pi_ghost.Wisp.Client.Thread.{failed, other, Control, receive}
use pi_ghost.Wisp.Client.Connect.{new_client}
use pi_ghost.Wisp.Session.{delivered, last_sent, last_message}
use pi_ghost.Wisp.Session.Granted.{granted_client, started, grant-starts}
use pi_ghost.Wisp.Session.Evicted.{evict-hands_over}
use pi_ghost.Wisp.Session.Alive.{Round, rounds, heard, rounds-in_time}
use pi_ghost.Tests.WispTests.{seconds, start, run, joined, busy, busy-IsIn}

-- Three sessions, none with the slot.
abbrev no_holder : ControlPlane
no_holder = run start joined

no_holder-IsIn : IsIn no_holder vacant
no_holder-IsIn = record { roles = roles; active = refl; evicting = refl }
  where
    roles : (j : ℕ) → role no_holder j ≡ role_in vacant j
    roles zero = refl
    roles (suc zero) = refl
    roles (suc (suc zero)) = refl
    roles (suc (suc (suc j))) = ap (λ s. role_of s.in_use s.state) (repeat_slot-free 5 j)

abbrev joiner : Client
joiner = new_client 6 []

grant-starts_example :
    (last_sent (do_grant no_holder 1).effects ≡ some (some 21, activate_grant 1 9))
    × (last_message (granted_client no_holder 1 true 40 joiner).calls ≡ some ready_for_rt_msg)
    × IsIn (started no_holder 1 (seconds 3)) (running 1)
    × (publish
          (seconds 3)
          2
          7
          (granted_client no_holder 1 true 40 joiner)
          (started no_holder 1 (seconds 3)).ring
        ≡ (
          does signals (granted_client no_holder 1 true 40 joiner),
          publish_slot (started no_holder 1 (seconds 3)).ring 2 7 (time_ns (seconds 3)),
        ))
grant-starts_example =
    grant-starts no_holder 1 true 40 joiner (seconds 3) 2 7 no_holder-IsIn refl refl

-- The client whose session has the slot.
abbrev holder : Client
holder = record joiner { ring = true; active = true; granted_generation = 1; frame_fd = some 40 }

evict-hands_over_example :
    (last_sent (grant_slot busy (seconds 4) 2).effects ≡ some (some 20, evict_pending 1000))
    × ((receive true (delivered (evict_pending 1000) 41) holder).active ≡ false)
    × (last_message (receive true (delivered (evict_pending 1000) 41) holder).calls
        ≡ some stopped_msg)
    × IsIn (handle (grant_slot busy (seconds 4) 2) (seconds 5) (readable 0 stopped)) (warming 2)
    × (publish
          (seconds 5)
          0
          8
          holder
          (handle (grant_slot busy (seconds 4) 2) (seconds 5) (readable 0 stopped)).ring
        ≡ (
          record holder { active = false },
          (handle (grant_slot busy (seconds 4) 2) (seconds 5) (readable 0 stopped)).ring,
        ))
evict-hands_over_example =
    evict-hands_over busy (seconds 4) (seconds 5) 0 2 true 41 holder holder 0 8 busy-IsIn
      (λ e. ground (arith, e)) (refl, refl) (omega arith) refl

abbrev round_at : ℕ → ℕ → Round
round_at s ns = record {
  now = record { tv_sec = s; tv_nsec = ns };
  taken = record { tv_sec = s; tv_nsec = ns + 1000000 };
  ring = new_ring;
  incoming = failed other;
}

abbrev beating : Control
beating = record { client = holder; last_heartbeat = seconds 10; last_activate_attempt = seconds 0 }

-- The second round sends a heartbeat, the third one does not.
sent_second :
    (rounds
      (round_at 10 499000000 ∷ round_at 10 900000000 ∷ round_at 11 0 ∷ [])
      beating).last_heartbeat
    ≡ record { tv_sec = 10; tv_nsec = 900000000 }
sent_second = refl

abbrev three_rounds : List Round
three_rounds = round_at 10 499000000 ∷ round_at 10 900000000 ∷ round_at 11 0 ∷ []

-- The heartbeat of the second round.
heard_second : heard three_rounds beating (seconds 10) ≡ record { tv_sec = 10; tv_nsec = 901000000 }
heard_second = refl

rounds-in_time_example :
    timed_out
      (record { tv_sec = 11; tv_nsec = 499000000 })
      (heard three_rounds beating (seconds 10))
    ≡ false
rounds-in_time_example =
    rounds-in_time (round_at 10 499000000) (round_at 10 900000000 ∷ round_at 11 0 ∷ []) beating
      (record { tv_sec = 11; tv_nsec = 499000000 }) (seconds 10) refl (omega arith)
      (
        (omega arith, omega arith, omega arith),
        tt,
        (
          (omega arith, omega arith, omega arith),
          tt,
          ((omega arith, omega arith, omega arith), tt, tt),
        ),
      )
      (omega arith) (omega arith) (omega arith) (omega arith)
