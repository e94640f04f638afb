-- ===== src/Wisp/Channel.antt =====
-- wisp/server/src/control/control_query.c: the admin thread hands one query at a time to the thread
-- of the control plane. A query has a number here for its address, and what it asks for is in
-- Wisp.Handlers. The mutexes make each operation one step; wisps_control_query_submit is three, since
-- the other thread may run between them.
pub mod Answered
use pi_ghost.Base.{
  ℕ, suc, ◌+◌, ◌-◌, ◌≡◌, Bool, true, false, List, [], ◌∷◌, Option, none, some, ◌==◌, ◌||◌,
}

-- The bytes in the pipe, and the query in flight.
pub record Channel : Type 0 where
  pub wake : ℕ
  pub pending : Option ℕ

abbrev pub channel_init : Channel
channel_init = record { wake = 0; pending = none }

-- Where wisps_control_query_submit is: not called, before its write, or in its wait; and the done of
-- its query.
pub data Submitter : Type 0 where
  at_rest : Submitter
  posting waiting : (number : ℕ) → (done : Bool) → Submitter

abbrev pub post : Channel → ℕ → Channel
post chan q = record chan { pending = some q }

abbrev pub write_byte : Channel → Channel
write_byte chan = record chan { wake = suc chan.wake }

-- wisps_control_query_channel_drain; the read of an empty pipe returns at once.
abbrev pub drain : Channel → Option ℕ × Channel
drain chan = (chan.pending, record { wake = chan.wake - 1; pending = none })

-- wisps_control_query_complete on the memory of the submitter: a query that has returned is gone.
abbrev pub complete : ℕ → Submitter → Submitter
complete q at_rest = at_rest
complete q (posting number done) = posting number (number == q || done)
complete q (waiting number done) = waiting number (number == q || done)

-- The two threads: where each is, the number of queries so far, and those that were completed.
pub record Threads : Type 0 where
  pub chan : Channel
  pub admin : Submitter
  pub control : Option ℕ
  pub asked : ℕ
  pub answered : List ℕ

abbrev pub both_at_rest : Threads
both_at_rest = record {
  chan = channel_init;
  admin = at_rest;
  control = none;
  asked = 0;
  answered = [];
}

-- One thread takes a step. The control thread may wake up for nothing.
pub data Exchange : Threads → Threads → Type 0 where
  submits :
      (w : Threads)
      → w.admin ≡ at_rest
      → Exchange w (record w {
        chan = post w.chan w.asked;
        admin = posting w.asked false;
        asked = suc w.asked;
      })
  writes :
      (w : Threads) (q : ℕ) (done : Bool)
      → w.admin ≡ posting q done
      → Exchange w (record w { chan = write_byte w.chan; admin = waiting q done })
  drains :
      (w : Threads)
      → w.control ≡ none
      → Exchange w (record w { chan = (drain w.chan).1; control = (drain w.chan).0 })
  completes :
      (w : Threads) (q : ℕ)
      → w.control ≡ some q
      → Exchange w
          (record w { admin = complete q w.admin; control = none; answered = q ∷ w.answered })
  returns :
      (w : Threads) (q : ℕ) → w.admin ≡ waiting q true → Exchange w (record w { admin = at_rest })

pub data Exchanges : Threads → Threads → Type 0 where
  no_exchange : {w : Threads} → Exchanges w w
  next_exchange : {u v w : Threads} → Exchange u v → Exchanges v w → Exchanges u w
