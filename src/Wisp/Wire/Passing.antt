-- ===== src/Wisp/Wire/Passing.antt =====
-- wisp_ctrl_send_fds and wisp_ctrl_recv_fds of socket_message.c: a message with its descriptors.
use pi_ghost.Base.{
  length-take, length-drop, ℕ, zero, suc, ◌+◌, ◌-◌, ◌≤◌, ◌<◌, ◌≡◌, refl, ap, ◌∙◌, List, [], ◌∷◌,
  ◌++◌, some, length, take, drop, arith, append_assoc,
}
use Prim.Native.Nat.{◌^◌}
use pi_ghost.Wisp.Wire.{
  Answer, moves, interrupted, failed, closed, Bytes, Outcome, returned, chunk, Read, recv_all,
  header, Message, message, recv_payload, recvmsg, Descriptors, harvest, settle, after_first,
  ctrl_recv_fds, ◌>>=◌,
}
use pi_ghost.Wisp.Wire.Chunks.{IsAlive, count_moves, recv_all-IsWhole, take-split, drop-split}
use pi_ghost.Wisp.Wire.Leaks.{Result}
use pi_ghost.Wisp.Wire.Frames.{payload_read, one_byte}

-- The first bytes of a header.
recvmsg-first :
    (ins : List Answer) (wire : Bytes)
    → 5 ≤ length wire
    → IsAlive ins
    → 1 ≤ count_moves ins
    → (n : ℕ) × (rest : List Answer) × (recvmsg ins wire
        ≡ returned (take n wire, drop n wire, rest))
      × (n ≤ 5)
      × IsAlive rest
      × (count_moves ins ≤ count_moves rest + n)
recvmsg-first [] wire l v c = ground arith
recvmsg-first (interrupted ∷ ins) wire l v c = recvmsg-first ins wire l v c
recvmsg-first (failed ∷ ins) wire l v c = absurd v
recvmsg-first (closed ∷ ins) wire l v c = absurd v
recvmsg-first (moves k ∷ ins) [] l v c = ground arith
recvmsg-first (moves k ∷ ins) (b ∷ bs) l v c =
    (chunk k (take 4 bs), ins, refl, ground (arith, length-take 4 bs), v, ground arith)

abbrev as_read : Bytes → Bytes → List Answer → Outcome Read
as_read got wire os = returned (got, wire, os)

-- The pieces of a header make the header.
pieces-joined :
    (n : ℕ) (wire : Bytes) (rest : List Answer)
    → n ≤ 5
    → as_read (take n wire ++ take (5 - n) (drop n wire)) (drop (5 - n) (drop n wire)) rest
      ≡ as_read (take 5 wire) (drop 5 wire) rest
pieces-joined n wire rest q =
    rw (take-split n (5 - n) wire, drop-split n (5 - n) wire, refills q) refl
  where
    refills : n ≤ 5 → n + (5 - n) ≡ 5
    refills h = omega (arith, h)

-- The header is read in two pieces, and the rest goes to `recv_payload`.
recv-header_fds :
    (ins : List Answer) (wire : Bytes) (bufsize : ℕ) (d : Descriptors)
    → 5 ≤ length wire
    → IsAlive ins
    → 5 ≤ count_moves ins
    → (rest : List Answer) × ((recvmsg ins wire >>= after_first bufsize d)
        ≡ settle d (recv_payload bufsize (take 5 wire, drop 5 wire, rest)))
      × IsAlive rest
      × (count_moves ins ≤ count_moves rest + 5)
recv-header_fds ins wire bufsize d l v c =
    let (n, r0, e0, q, v0, c0) = recvmsg-first ins wire l v (omega (arith, c)) in
    let (r1, e1, v1, c1) =
      recv_all-IsWhole r0 (drop n wire) (5 - n) (take n wire)
        (omega (arith, l, q, length-drop n wire)) v0 (omega (arith, c, c0, q)) in
    (
      r1,
      ap (λ o. o >>= after_first bufsize d) e0
          ∙ ap
              (λ k.
                settle d (recv_all r0 (drop n wire) (5 - k) (take n wire) >>= recv_payload bufsize))
              (length-take n wire (omega (arith, l, q)))
          ∙ ap (λ o. settle d (o >>= recv_payload bufsize)) (e1 ∙ pieces-joined n wire r1 q),
      v1,
      omega (arith, c0, c1, q),
    )

pub take-all : (n : ℕ) (xs : List ℕ) → length xs ≤ n → take n xs ≡ xs
take-all zero [] h = refl
take-all zero (x ∷ xs) h = ground arith
take-all (suc n) [] h = refl
take-all (suc n) (x ∷ xs) h = ap (◌∷◌ x) (take-all n xs (omega (arith, h)))

drop-all : (n : ℕ) (xs : List ℕ) → length xs ≤ n → drop n xs ≡ []
drop-all zero [] h = refl
drop-all zero (x ∷ xs) h = ground arith
drop-all (suc n) [] h = refl
drop-all (suc n) (x ∷ xs) h = drop-all n xs (omega (arith, h))

abbrev pub handed : Message → Bytes → List Answer → List ℕ → Outcome Result
handed m wire os fds = returned (some (m, wire, os), record { kept = fds; dropped = [] })

-- From a header with its payload, wisp_ctrl_recv_fds gives back the kind, the payload and every
-- descriptor that rides on it, none of them closed, and leaves the bytes after the message on the
-- wire.
pub ctrl_recv_fds-header :
    (ins : List Answer) (kind bufsize max_fds : ℕ) (payload later : Bytes) (fds : List ℕ)
    → kind < 256
    → length payload ≤ bufsize
    → length payload < 2 ^ 32
    → length fds ≤ max_fds
    → IsAlive ins
    → 5 + length payload ≤ count_moves ins
    → (rest : List Answer) × (ctrl_recv_fds ins
          ((header kind (length payload) ++ payload) ++ later)
          bufsize
          max_fds
          fds
        ≡ handed (message kind payload) later rest fds)
ctrl_recv_fds-header ins kind bufsize max_fds payload later fds k l s m v c =
    let (r1, e1, w1, d1) =
      recv-header_fds ins (header kind (length payload) ++ (payload ++ later)) bufsize
        (harvest max_fds fds) (omega arith) v (omega (arith, c)) in
    let (r2, e2) = payload_read kind bufsize payload later r1 l s w1 (omega (arith, c, d1)) in
    (
      r2,
      ap (λ w. ctrl_recv_fds ins w bufsize max_fds fds)
            (append_assoc (header kind (length payload)) payload later)
          ∙ e1
          ∙ ap (settle (harvest max_fds fds)) e2
          ∙ rw (one_byte kind k, take-all max_fds fds m, drop-all max_fds fds m) refl,
    )
