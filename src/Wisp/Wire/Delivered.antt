-- ===== src/Wisp/Wire/Delivered.antt =====
-- socket_message.c with a kernel that answers both sides without an error: what is sent is received.
use pi_ghost.Base.{
  ℕ, suc, ◌+◌, ◌*◌, ◌≤◌, ◌<◌, ◌≡◌, ap, ◌∙◌, sym, false, List, [], ◌∷◌, ◌++◌, ltb, length, take,
  drop, arith, append_assoc, append-nil, take-drop, length-drop,
}
use Prim.Native.Nat.{◌^◌, ◌/◌}
use pi_ghost.Wisp.Types.{num_buffers}
use pi_ghost.Wisp.Wire.{
  Answer, moves, interrupted, failed, closed, Bytes, Outcome, returned, chunk, header, send_all,
  Cmsg, cmsg_of, rides, with_fds, send_header, send_with_fds, ctrl_send, ctrl_send_fds, ctrl_recv,
  ctrl_recv_fds, message, ◌>>=◌,
}
use pi_ghost.Wisp.Wire.Chunks.{IsAlive, count_moves}
use pi_ghost.Wisp.Wire.Frames.{send_all-empty, received, ctrl_recv-ctrl_send}
use pi_ghost.Wisp.Wire.Passing.{handed, take-all, ctrl_recv_fds-header}

-- A write that is whole, with live answers left.
abbrev IsSent : List Answer → Bytes → Bytes → Outcome (Bytes × List Answer) → Type 0
IsSent os bytes wire o =
    (left : List Answer) × (o ≡ returned (wire ++ bytes, left))
    × IsAlive left
    × (count_moves os ≤ count_moves left + length bytes)

chunk-bounds : (k : ℕ) (bs : Bytes) → (1 ≤ chunk k bs) × (chunk k bs ≤ suc (length bs))
chunk-bounds k bs = ground arith

send_all-IsSent :
    (os : List Answer) (bytes wire : Bytes)
    → IsAlive os
    → length bytes ≤ count_moves os
    → IsSent os bytes wire (send_all os bytes wire)
send_all-IsSent os [] wire v c = (
  os,
  send_all-empty os wire ∙ ap (λ w. returned (w, os)) (sym (append-nil wire)),
  v,
  omega arith,
)
send_all-IsSent [] (b ∷ bs) wire v c = ground arith
send_all-IsSent (interrupted ∷ os) (b ∷ bs) wire v c = send_all-IsSent os (b ∷ bs) wire v c
send_all-IsSent (failed ∷ os) (b ∷ bs) wire v c = absurd v
send_all-IsSent (closed ∷ os) (b ∷ bs) wire v c = absurd v
send_all-IsSent (moves k ∷ os) (b ∷ bs) wire v c =
    let n = chunk k bs in
    let (p, q) = chunk-bounds k bs in
    let (left, e, w, d) =
      send_all-IsSent os (drop n (b ∷ bs)) (wire ++ take n (b ∷ bs)) v
        (omega (arith, c, p, length-drop n (b ∷ bs))) in
    (
      left,
      e
          ∙ ap (λ x. returned (x, left))
              (append_assoc wire _ _ ∙ ap (◌++◌ wire) (take-drop n (b ∷ bs))),
      w,
      omega (arith, d, p, q, length-drop n (b ∷ bs)),
    )

-- The payload goes after the header.
payload_sent :
    (os : List Answer) (hdr payload : Bytes) (o : Outcome (Bytes × List Answer))
    → IsSent os hdr [] o
    → length hdr + length payload ≤ count_moves os
    → (left : List Answer) × ((o >>= λ r. send_all r.1 payload r.0)
        ≡ returned (hdr ++ payload, left))
payload_sent os hdr payload o (l0, e0, v0, d0) c =
    let (l1, e1, v1, d1) = send_all-IsSent l0 payload hdr v0 (omega (arith, c, d0)) in
    (l1, ap (λ o. o >>= λ r. send_all r.1 payload r.0) e0 ∙ e1)

ctrl_send-returned :
    (os : List Answer) (kind : ℕ) (payload : Bytes)
    → IsAlive os
    → 5 + length payload ≤ count_moves os
    → (left : List Answer) × (ctrl_send os kind payload
        ≡ returned (header kind (length payload) ++ payload, left))
ctrl_send-returned os kind payload v c =
    payload_sent os (header kind (length payload)) payload
      (send_all os (header kind (length payload)) [])
      (send_all-IsSent os (header kind (length payload)) [] v (omega (arith, c))) c

-- The header leaves, and the descriptors with it.
send_header-returned :
    (os : List Answer) (b : ℕ) (bs : Bytes) (c : Cmsg)
    → IsAlive os
    → suc (length bs) ≤ count_moves os
    → (left : List Answer) × (send_header os (b ∷ bs) c ≡ returned ((b ∷ bs, left), rides c))
      × IsAlive left
      × (count_moves os ≤ count_moves left + suc (length bs))
send_header-returned [] b bs c v h = ground arith
send_header-returned (interrupted ∷ os) b bs c v h = send_header-returned os b bs c v h
send_header-returned (failed ∷ os) b bs c v h = absurd v
send_header-returned (closed ∷ os) b bs c v h = absurd v
send_header-returned (moves k ∷ os) b bs c v h =
    let (left, e, w, d) = send_all-IsSent (moves k ∷ os) (b ∷ bs) [] v h in
    (left, ap (with_fds (rides c)) e, w, d)

rides-cmsg_of : (fds : List ℕ) → rides (cmsg_of fds) ≡ fds
rides-cmsg_of fds = take-all (4 * length fds / 4) fds (omega arith)

send_with_fds-returned :
    (os : List Answer) (kind : ℕ) (payload : Bytes) (fds : List ℕ)
    → IsAlive os
    → 5 + length payload ≤ count_moves os
    → (left : List Answer) × (send_with_fds os kind payload fds
        ≡ returned ((header kind (length payload) ++ payload, left), fds))
send_with_fds-returned os kind payload fds v c =
    let hdr = header kind (length payload) in
    let (l0, e0, v0, d0) = send_header-returned os _ _ (cmsg_of fds) v (omega (arith, c)) in
    let (l1, e1, v1, d1) = send_all-IsSent l0 payload hdr v0 (omega (arith, c, d0)) in
    (
      l1,
      ap (λ o. o >>= λ s. with_fds s.1 (send_all s.0.1 payload s.0.0)) e0
          ∙ ap (with_fds (rides (cmsg_of fds))) e1
          ∙ ap (λ (l : List ℕ). returned ((hdr ++ payload, l1), l)) (rides-cmsg_of fds),
    )

ctrl_send_fds-returned :
    (os : List Answer) (kind : ℕ) (payload : Bytes) (fds : List ℕ)
    → length fds ≤ num_buffers
    → IsAlive os
    → 5 + length payload ≤ count_moves os
    → (left : List Answer) × (ctrl_send_fds os kind payload fds
        ≡ returned ((header kind (length payload) ++ payload, left), fds))
ctrl_send_fds-returned os kind payload [] l v c =
    let (left, e) = ctrl_send-returned os kind payload v c in (left, ap (with_fds []) e)
ctrl_send_fds-returned os kind payload (fd ∷ fds) l v c =
    rw few (send_with_fds-returned os kind payload (fd ∷ fds) v c)
  where
    few : ltb num_buffers (length (fd ∷ fds)) ≡ false
    few = ground arith

-- A message that is sent arrives. wisp_ctrl_send returns and wisp_ctrl_recv gives back the kind and
-- the payload, and leaves the bytes after the message on the wire, however the kernel divides the
-- bytes on both sides. It answers without an error, with any interruptions, as often as there are
-- bytes; the payload fits the buffer and its length 32 bits, and the kind is one byte.
pub ctrl_send-delivered :
    (os ins : List Answer) (kind bufsize : ℕ) (payload later : Bytes)
    → kind < 256
    → length payload ≤ bufsize
    → length payload < 2 ^ 32
    → IsAlive os
    → 5 + length payload ≤ count_moves os
    → IsAlive ins
    → 5 + length payload ≤ count_moves ins
    → (out : Bytes) × (left rest : List Answer) × (ctrl_send os kind payload ≡ returned (out, left))
      × (ctrl_recv ins (out ++ later) bufsize ≡ received (message kind payload) later rest)
ctrl_send-delivered os ins kind bufsize payload later k l s v c v' c' =
    let (left, e) = ctrl_send-returned os kind payload v c in
    let (rest, r) = ctrl_recv-ctrl_send os left ins kind bufsize payload _ later e k l s v' c' in
    (header kind (length payload) ++ payload, left, rest, e, r)

-- A message with at most three descriptors that is sent arrives, and so do its descriptors.
-- wisp_ctrl_send_fds returns and passes descriptors on with its first byte; wisp_ctrl_recv_fds, which
-- gets these, gives back the kind, the payload and every descriptor of the message, in their order
-- and none of them closed, and leaves the bytes after the message on the wire. The receiver has room
-- for the descriptors; the payload, the kind and the kernel are as for a message without.
pub ctrl_send_fds-delivered :
    (os ins : List Answer) (kind bufsize max_fds : ℕ) (payload later : Bytes) (fds : List ℕ)
    → kind < 256
    → length payload ≤ bufsize
    → length payload < 2 ^ 32
    → length fds ≤ num_buffers
    → length fds ≤ max_fds
    → IsAlive os
    → 5 + length payload ≤ count_moves os
    → IsAlive ins
    → 5 + length payload ≤ count_moves ins
    → (out : Bytes) × (left rest : List Answer) × (passed : List ℕ) × (ctrl_send_fds os kind payload
          fds
        ≡ returned ((out, left), passed))
      × (ctrl_recv_fds ins (out ++ later) bufsize max_fds passed
          ≡ handed (message kind payload) later rest fds)
ctrl_send_fds-delivered os ins kind bufsize max_fds payload later fds k l s n m v c v' c' =
    let (left, e) = ctrl_send_fds-returned os kind payload fds n v c in
    let (rest, r) = ctrl_recv_fds-header ins kind bufsize max_fds payload later fds k l s m v' c' in
    (header kind (length payload) ++ payload, left, rest, fds, e, r)
