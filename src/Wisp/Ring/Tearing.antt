-- ===== src/Wisp/Ring/Tearing.antt =====
-- The client and the server of wisp/ use the ring at the same time: no frame is torn.
use pi_ghost.Base.{
  ℕ, ◌<◌, ◌≡◌, ◌≢◌, refl, ap, sym, ◌∙◌, true, false, Option, none, some, inl, inr, arith,
  Bool-cases,
}
use pi_ghost.Wisp.Ring.{
  Ring, new_ring, evict_client, in_use, free_buffer, claim, write_unclaimed, write_slot, stamp_slot,
  make_latest, lock, checkout, release,
}

IsFree : Ring → ℕ → Type 0
IsFree r i = (i < 3) × (r.latest_ready ≢ some i) × (r.server_locked ≢ some i)

not_in_use : (r : Ring) (i : ℕ) → i < 3 → in_use r i ≡ false → IsFree r i
unfolding IsFree
not_in_use r i l h = (l, λ e. ground arith, λ e. ground arith)

-- Two buffers at most are in use.
one_left : (r : Ring) → in_use r 0 ≡ true → in_use r 1 ≡ true → in_use r 2 ≡ false
one_left r a b = ground arith

free_buffer-IsFree : (r : Ring) → (i : ℕ) × IsFree r i × (free_buffer r 0 3 ≡ some i)
free_buffer-IsFree r = elim (Bool-cases (in_use r 0)) [
  | inr a ↦ (0, not_in_use r 0 (omega arith) a, rw a refl)
  | inl a ↦ elim (Bool-cases (in_use r 1)) [
    | inr b ↦ (1, not_in_use r 1 (omega arith) b, rw (a, b) refl)
    | inl b ↦ (2, not_in_use r 2 (omega arith) (one_left r a b), rw (a, b, one_left r a b) refl)
  ]
]

unclaimed : (r : Ring) (o : Option ℕ) → o ≡ none → write_unclaimed r o ≡ claim r (free_buffer r 0 3)
unclaimed r none e = refl
unclaimed r (some i) e = ground arith

-- While no buffer is claimed, wisp_shm_ring_write_slot finds one of the three that is neither the
-- latest frame nor the server's, and claims it: its abort for the lack of a buffer is never reached.
write_slot-free :
    (r : Ring)
    → r.client_locked ≡ none
    → (i : ℕ) × (i < 3)
      × (r.latest_ready ≢ some i)
      × (r.server_locked ≢ some i)
      × (write_slot r ≡ (some i, record r { client_locked = some i }))
unfolding IsFree
write_slot-free r h =
    let (i, (l, p, q), e) = free_buffer-IsFree r in
    (i, l, p, q, unclaimed r r.client_locked h ∙ ap (claim r) e)

-- The ring with the buffer that the client writes and the one that the server reads.
pub record World : Type 0 where
  pub ring : Ring
  pub writing : Option ℕ
  pub reading : Option ℕ

abbrev pub idle_world : World
idle_world = record { ring = new_ring; writing = none; reading = none }

-- One side takes a step, in any order; the server evicts the client only while neither side uses a
-- buffer.
pub data Turn : World → World → Type 0 where
  claims :
      (w : World)
      → w.writing ≡ none
      → Turn w (record {
        ring = (write_slot w.ring).1;
        writing = (write_slot w.ring).0;
        reading = w.reading;
      })
  stamps :
      (w : World) (i id now_ns : ℕ)
      → w.writing ≡ some i
      → Turn w (record w { ring = stamp_slot w.ring i id now_ns })
  publishes :
      (w : World) (i : ℕ)
      → w.writing ≡ some i
      → Turn w (record w { ring = make_latest w.ring i; writing = none })
  checks_out :
      (w : World)
      → w.reading ≡ none
      → Turn w (record {
        ring = (checkout w.ring).1;
        writing = w.writing;
        reading = (checkout w.ring).0;
      })
  releases : (w : World) → Turn w (record w { ring = release w.ring; reading = none })
  evicts :
      (w : World)
      → w.writing ≡ none
      → w.reading ≡ none
      → Turn w (record w { ring = evict_client w.ring })

pub data Turns : World → World → Type 0 where
  no_turn : {w : World} → Turns w w
  next_turn : {u v w : World} → Turn u v → Turns v w → Turns u w

-- What the ring says of the two sides is true, and the client's buffer is its own.
record IsSound (w : World) : Type 0 where
  claimed : w.writing ≡ w.ring.client_locked
  locked : w.reading ≡ w.ring.server_locked
  apart : (i : ℕ) → w.writing ≡ some i → (w.ring.latest_ready ≢ some i) × (w.reading ≢ some i)

claims-IsSound :
    (u : World)
    → u.writing ≡ none
    → IsSound u
    → IsSound (record {
      ring = (write_slot u.ring).1;
      writing = (write_slot u.ring).0;
      reading = u.reading;
    })
unfolding IsFree
claims-IsSound u h s =
    let (i, (l, p, q), e) = free_buffer-IsFree u.ring in
    let f = unclaimed u.ring u.ring.client_locked (sym s.claimed ∙ h) ∙ ap (claim u.ring) e in
    rw f (record {
      claimed = refl;
      locked = s.locked;
      apart = λ k x. (λ y. p (y ∙ sym x), λ y. q (sym s.locked ∙ y ∙ sym x));
    })

checks_out-IsSound :
    (u : World) (o : Option ℕ)
    → u.reading ≡ none
    → u.ring.latest_ready ≡ o
    → IsSound u
    → IsSound (record { ring = lock u.ring o; writing = u.writing; reading = o })
checks_out-IsSound u none h e s = record {
  claimed = s.claimed;
  locked = sym h ∙ s.locked;
  apart = λ k x. ((s.apart k x).0, λ y. ground arith);
}
checks_out-IsSound u (some i) h e s = record {
  claimed = s.claimed;
  locked = refl;
  apart = λ k x. ((s.apart k x).0, λ y. (s.apart k x).0 (e ∙ y));
}

Turn-IsSound : {u w : World} → Turn u w → IsSound u → IsSound w
Turn-IsSound (claims u h) s = claims-IsSound u h s
Turn-IsSound (stamps u i id now_ns h) s = record {
  claimed = s.claimed;
  locked = s.locked;
  apart = s.apart;
}
Turn-IsSound (publishes u i h) s = record {
  claimed = refl;
  locked = s.locked;
  apart = λ k x. ground arith;
}
Turn-IsSound (checks_out u h) s = checks_out-IsSound u u.ring.latest_ready h refl s
Turn-IsSound (releases u) s = record {
  claimed = s.claimed;
  locked = refl;
  apart = λ k x. ((s.apart k x).0, λ y. ground arith);
}
Turn-IsSound (evicts u h k) s = record { claimed = h; locked = k; apart = λ i x. ground arith }

Turns-IsSound : {u w : World} → Turns u w → IsSound u → IsSound w
Turns-IsSound no_turn s = s
Turns-IsSound (next_turn t ts) s = Turns-IsSound ts (Turn-IsSound t s)

-- In whatever order the client claims, stamps and publishes buffers and the server checks them out and
-- releases them, the buffer that the client writes is never the one that the server reads, nor the
-- latest complete frame. An eviction may come in between while neither side uses a buffer.
pub Turns-apart :
    (w : World) (i : ℕ)
    → Turns idle_world w
    → w.writing ≡ some i
    → (w.ring.latest_ready ≢ some i) × (w.reading ≢ some i)
Turns-apart w i ts = (Turns-IsSound ts start).apart i
  where
    start : IsSound idle_world
    start = record { claimed = refl; locked = refl; apart = λ k x. ground arith }
