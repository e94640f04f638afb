-- ===== src/Wisp/Channel/Answered.antt =====
-- control_query.c with one admin thread: every query is answered once, whatever the two threads do
-- between each other's steps.
use pi_ghost.Base.{ℕ, zero, suc, ◌≤◌, ◌≡◌, ◌⊎◌, true, false, List, [], ◌∷◌, none, some}
use pi_ghost.Wisp.Channel.{Submitter, at_rest, posting, waiting, complete, Threads}

-- The numbers below n, the last one first.
abbrev pub numbers_below : ℕ → List ℕ
numbers_below zero = []
numbers_below (suc n) = n ∷ numbers_below n

-- No query is on its way.
IsQuiet : Threads → Type 0
IsQuiet w = (w.chan.pending ≡ none) × (w.control ≡ none) × (w.answered ≡ numbers_below w.asked)

-- The query is in the channel, with its byte if `m` is 1, or with the control thread.
IsOnItsWay : ℕ → ℕ → Threads → Type 0
IsOnItsWay m q w =
    (suc q ≡ w.asked)
    × (w.answered ≡ numbers_below q)
    × (((w.chan.pending ≡ some q) × (w.control ≡ none) × (m ≤ w.chan.wake))
        ⊎ ((w.chan.pending ≡ none) × (w.control ≡ some q)))

-- A query that is not done is on its way, and has its byte once the submitter waits. Otherwise nothing
-- is under way, and each query so far was completed once, in order.
pub IsTracked : Submitter → Threads → Type 0
IsTracked at_rest w = IsQuiet w
IsTracked (posting q false) w = IsOnItsWay 0 q w
IsTracked (posting q true) w = IsQuiet w × (suc q ≡ w.asked)
IsTracked (waiting q false) w = IsOnItsWay 1 q w
IsTracked (waiting q true) w = IsQuiet w × (suc q ≡ w.asked)

abbrev completed : ℕ → Threads → Threads
completed q w = record w { admin = complete q w.admin; control = none; answered = q ∷ w.answered }
