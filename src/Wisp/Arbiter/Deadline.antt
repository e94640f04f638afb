-- ===== src/Wisp/Arbiter/Deadline.antt =====
-- The grace period of an eviction in control_plane.c.
use pi_ghost.Base.{ℕ, ◌+◌, ◌*◌, ◌≤◌, ◌<◌, ◌≡◌, true, false, arith}
use pi_ghost.Wisp.Types.{Timespec}
use pi_ghost.Wisp.Control.{deadline_after}
use pi_ghost.Wisp.Loop.{deadline_passed}

-- Nanoseconds since the start of the clock.
abbrev pub nanos : Timespec → ℕ
nanos t = t.tv_sec * 1000000000 + t.tv_nsec

-- The deadline of an eviction is a well-formed time, exactly one second after the reading of the
-- clock.
deadline_after-nanos :
    (now : Timespec)
    → now.tv_nsec < 1000000000
    → ((deadline_after now).tv_nsec < 1000000000)
      × (nanos (deadline_after now) ≡ nanos now + 1000000000)
deadline_after-nanos now h = ground arith

-- Between two well-formed times, a deadline that is reached counts as passed, and one that is a
-- millisecond or more ahead does not.
pub deadline_passed-nanos :
    (now deadline : Timespec)
    → now.tv_nsec < 1000000000
    → deadline.tv_nsec < 1000000000
    → (nanos deadline ≤ nanos now → deadline_passed now deadline ≡ true)
      × (nanos now + 1000000 ≤ nanos deadline → deadline_passed now deadline ≡ false)
deadline_passed-nanos now deadline h k = (λ e. ground arith, λ e. ground arith)
