-- ===== src/Wisp/Client/Waiting.antt =====
-- The wait of wispc_announce_dmabufs in client_control.c.
use mathlib.Core.Path.{subst}
use pi_ghost.Base.{
  ℕ, suc, ◌+◌, ◌-◌, ◌≤◌, ◌≡◌, refl, false, List, [], ◌∷◌, some, arith, length, take, leb, if_either,
}
use Prim.Native.Nat.{◌/◌}
use pi_ghost.Wisp.Client.{
  AckState, ack_pending, ack_accepted, ack_refused, Announced, taken, refused_by_server,
  not_answered, wait_for_ack,
}

-- What the first answer among some states means.
abbrev pub verdict : List AckState → Announced
verdict [] = not_answered
verdict (ack_pending ∷ states) = verdict states
verdict (ack_accepted ∷ states) = taken
verdict (ack_refused ∷ states) = refused_by_server

-- The number of times that the state is read before the limit.
abbrev pub reads : ℕ → ℕ
reads limit = (limit + 4) / 5 + 1

one_read : (d : ℕ) → d ≡ 0 → reads d ≡ 1
one_read d h = omega (arith, h)

next_read :
    (limit waited : ℕ)
    → leb limit waited ≡ false
    → reads (limit - waited) ≡ suc (reads (limit - (waited + 5)))
next_read limit waited h = ground arith

wait_from :
    (limit : ℕ) (states : List AckState) (waited : ℕ)
    → reads (limit - waited) ≤ length states
    → wait_for_ack (some limit) states waited ≡ verdict (take (reads (limit - waited)) states)
wait_from limit [] waited h = absurd (omega (arith, h))
wait_from limit (ack_accepted ∷ states) waited h = rw (positive (limit - waited)) refl
  where
    positive : (d : ℕ) → reads d ≡ suc ((d + 4) / 5)
    positive d = omega arith
wait_from limit (ack_refused ∷ states) waited h = rw (positive (limit - waited)) refl
  where
    positive : (d : ℕ) → reads d ≡ suc ((d + 4) / 5)
    positive d = omega arith
wait_from limit (ack_pending ∷ states) waited h =
    if_either (λ r. r ≡ verdict (take (reads (limit - waited)) (ack_pending ∷ states)))
      (leb limit waited) _ _ (λ e. rw (one_read (limit - waited) (ground arith)) refl)
      (λ e.
        rw (next_read limit waited e)
          (wait_from limit states (waited + 5) (omega (arith, h, next_read limit waited e))))

-- With a limit, the wait ends after one read more than the limit has periods of five milliseconds,
-- and its result is that of the first answer among these reads, or -1 if there is none.
pub wait_for_ack-verdict :
    (limit : ℕ) (states : List AckState)
    → reads limit ≤ length states
    → wait_for_ack (some limit) states 0 ≡ verdict (take (reads limit) states)
wait_for_ack-verdict limit states h =
    subst (λ d. wait_for_ack (some limit) states 0 ≡ verdict (take (reads d) states))
      (no_less limit) (wait_from limit states 0 (omega (arith, h, no_less limit)))
  where
    no_less : (n : ℕ) → n - 0 ≡ n
    no_less n = omega arith
