-- ===== src/Wisp/Wire/Frames.antt =====
-- wisp_ctrl_send and wisp_ctrl_recv of socket_message.c: what is sent is what is received.
use pi_ghost.Base.{
  ℕ, ◌+◌, ◌≤◌, ◌<◌, ◌≡◌, refl, ap, sym, ◌∙◌, true, false, List, [], ◌∷◌, ◌++◌, ltb, length, take,
  drop, arith, take-drop, append_assoc, append-nil, length-append, take-append, drop-append,
}
use Prim.Native.Nat.{◌^◌, ◌%◌}
use pi_ghost.Wisp.Wire.{
  Answer, moves, interrupted, failed, closed, Bytes, Outcome, returned, error, blocked, chunk,
  send_all, htonl, ntohl, header, ctrl_send, Message, message, too_large, recv_payload, ctrl_recv,
  ◌>>=◌,
}
use pi_ghost.Wisp.Wire.Chunks.{IsAlive, count_moves, recv_all-IsWhole}

pub ntohl-htonl : (n : ℕ) → n < 2 ^ 32 → ntohl (htonl n) ≡ n
ntohl-htonl n h = omega (arith, h)

pub send_all-empty : (os : List Answer) (wire : Bytes) → send_all os [] wire ≡ returned (wire, os)
send_all-empty [] wire = refl
send_all-empty (o ∷ os) wire = refl

returned-wire : (p q : Bytes × List Answer) → returned p ≡ returned q → p.0 ≡ q.0
returned-wire p q e = ground arith

pub send_all-wire :
    (os : List Answer) (bytes wire : Bytes) (r : Bytes × List Answer)
    → send_all os bytes wire ≡ returned r
    → r.0 ≡ wire ++ bytes
send_all-wire os [] wire r e =
    sym (returned-wire (wire, os) r (sym (send_all-empty os wire) ∙ e)) ∙ sym (append-nil wire)
send_all-wire [] (b ∷ bs) wire r e = ground arith
send_all-wire (interrupted ∷ os) (b ∷ bs) wire r e = send_all-wire os (b ∷ bs) wire r e
send_all-wire (failed ∷ os) (b ∷ bs) wire r e = ground arith
send_all-wire (closed ∷ os) (b ∷ bs) wire r e = ground arith
send_all-wire (moves k ∷ os) (b ∷ bs) wire r e =
    send_all-wire os (drop (chunk k bs) (b ∷ bs)) (wire ++ take (chunk k bs) (b ∷ bs)) r e
    ∙ append_assoc wire _ _
    ∙ ap (◌++◌ wire) (take-drop (chunk k bs) (b ∷ bs))

pub sent-wire :
    (payload : Bytes) (m : Outcome (Bytes × List Answer)) (hdr out : Bytes) (rest : List Answer)
    → ((r : Bytes × List Answer) → m ≡ returned r → r.0 ≡ hdr)
    → (m >>= λ r. send_all r.1 payload r.0) ≡ returned (out, rest)
    → out ≡ hdr ++ payload
sent-wire payload (returned r) hdr out rest h e =
    send_all-wire r.1 payload r.0 (out, rest) e ∙ ap (λ w. w ++ payload) (h r refl)
sent-wire payload error hdr out rest h e = ground arith
sent-wire payload blocked hdr out rest h e = ground arith

pub ctrl_send-wire :
    (os rest : List Answer) (kind : ℕ) (payload out : Bytes)
    → ctrl_send os kind payload ≡ returned (out, rest)
    → out ≡ header kind (length payload) ++ payload
ctrl_send-wire os rest kind payload out e =
    sent-wire payload (send_all os (header kind (length payload)) []) (header kind (length payload))
      out rest (λ r. send_all-wire os (header kind (length payload)) [] r) e

-- The header is read, and the rest goes to `recv_payload`.
recv-header :
    (ins : List Answer) (kind len bufsize : ℕ) (tail : Bytes)
    → IsAlive ins
    → 5 ≤ count_moves ins
    → (rest : List Answer) × (ctrl_recv ins (header kind len ++ tail) bufsize
        ≡ recv_payload bufsize (header kind len, tail, rest))
      × IsAlive rest
      × (count_moves ins ≤ count_moves rest + 5)
recv-header ins kind len bufsize tail v c =
    let (rest, e, w, d) = recv_all-IsWhole ins (header kind len ++ tail) 5 [] (omega arith) v c in
    (rest, ap (λ o. o >>= recv_payload bufsize) e, w, d)

abbrev pub received : Message → Bytes → List Answer → Outcome (Message × Bytes × List Answer)
received m wire os = returned (m, wire, os)

pub payload_read :
    (kind bufsize : ℕ) (payload later : Bytes) (os : List Answer)
    → length payload ≤ bufsize
    → length payload < 2 ^ 32
    → IsAlive os
    → length payload ≤ count_moves os
    → (rest : List Answer) × (recv_payload bufsize
          (header kind (length payload), payload ++ later, os)
        ≡ received (message (kind % 256) payload) later rest)
payload_read kind bufsize payload later os l s v c =
    let (rest, e, w, d) =
      recv_all-IsWhole os (payload ++ later) (length payload) []
        (omega (arith, length-append payload later)) v c in
    (
      rest,
      rw
          (
            ntohl-htonl (length payload) s,
            ltb_false,
            e,
            take-append payload later,
            drop-append payload later,
          )
          refl,
    )
  where
    ltb_false : ltb bufsize (length payload) ≡ false
    ltb_false = ground arith

pub one_byte : (kind : ℕ) → kind < 256 → kind % 256 ≡ kind
one_byte kind k = omega (arith, k)

refused :
    (kind bufsize : ℕ) (payload wire : Bytes) (os : List Answer)
    → kind < 256
    → bufsize < length payload
    → length payload < 2 ^ 32
    → recv_payload bufsize (header kind (length payload), wire, os)
      ≡ received (too_large kind) wire os
refused kind bufsize payload wire os k l s =
    rw (ntohl-htonl (length payload) s, too_long, one_byte kind k) refl
  where
    too_long : ltb bufsize (length payload) ≡ true
    too_long = ground arith

-- What wisp_ctrl_send puts on the wire, wisp_ctrl_recv gives back: the kind and the payload, and
-- the bytes after the message stay on the wire. The payload fits the buffer and its length 32 bits,
-- the kind is one byte, and the kernel, however it divides the bytes on both sides, answers the
-- reads without an error, as often as there are bytes.
pub ctrl_recv-ctrl_send :
    (os left ins : List Answer) (kind bufsize : ℕ) (payload out later : Bytes)
    → ctrl_send os kind payload ≡ returned (out, left)
    → kind < 256
    → length payload ≤ bufsize
    → length payload < 2 ^ 32
    → IsAlive ins
    → 5 + length payload ≤ count_moves ins
    → (rest : List Answer) × (ctrl_recv ins (out ++ later) bufsize
        ≡ received (message kind payload) later rest)
ctrl_recv-ctrl_send os left ins kind bufsize payload out later e k l s v c =
    let (r1, e1, w1, d1) =
      recv-header ins kind (length payload) bufsize (payload ++ later) v (omega (arith, c)) in
    let (r2, e2) = payload_read kind bufsize payload later r1 l s w1 (omega (arith, c, d1)) in
    (
      r2,
      ap (λ w. ctrl_recv ins w bufsize) on_the_wire
          ∙ e1
          ∙ e2
          ∙ ap (λ x. received (message x payload) later r2) (one_byte kind k),
    )
  where
    on_the_wire : out ++ later ≡ header kind (length payload) ++ (payload ++ later)
    on_the_wire =
        ap (λ w. w ++ later) (ctrl_send-wire os left kind payload out e)
        ∙ append_assoc (header kind (length payload)) payload later

-- A message that does not fit the buffer is refused with -2, and its payload stays on the wire.
ctrl_recv-too_large :
    (ins : List Answer) (kind bufsize : ℕ) (payload later : Bytes)
    → kind < 256
    → bufsize < length payload
    → length payload < 2 ^ 32
    → IsAlive ins
    → 5 ≤ count_moves ins
    → (rest : List Answer) × (ctrl_recv ins
          (header kind (length payload) ++ payload ++ later)
          bufsize
        ≡ received (too_large kind) (payload ++ later) rest)
ctrl_recv-too_large ins kind bufsize payload later k l s v c =
    let (r1, e1, w1, d1) = recv-header ins kind (length payload) bufsize (payload ++ later) v c in
    (r1, e1 ∙ refused kind bufsize payload (payload ++ later) r1 k l s)

-- A message that does not fit the buffer, and whose payload begins with the bytes of a message that
-- does, is refused with -2; the payload stays on the wire, and the next call takes those bytes for a
-- message, which nobody has sent. The lengths fit 32 bits, the kinds are one byte, and the reads are
-- answered without an error, as often as there are bytes to read.
pub ctrl_recv-misread :
    (ins : List Answer) (kind inner_kind bufsize : ℕ) (inner tail payload later : Bytes)
    → payload ≡ header inner_kind (length inner) ++ (inner ++ tail)
    → kind < 256
    → inner_kind < 256
    → bufsize < length payload
    → length payload < 2 ^ 32
    → length inner ≤ bufsize
    → IsAlive ins
    → 10 + length inner ≤ count_moves ins
    → (next rest : List Answer) × (ctrl_recv ins
          (header kind (length payload) ++ (payload ++ later))
          bufsize
        ≡ received (too_large kind) (payload ++ later) next)
      × (ctrl_recv next (payload ++ later) bufsize
          ≡ received (message inner_kind inner) (tail ++ later) rest)
ctrl_recv-misread ins kind inner_kind bufsize inner tail payload later p k k' l s i v c =
    let (r1, e1, w1, d1) =
      recv-header ins kind (length payload) bufsize (payload ++ later) v (omega (arith, c)) in
    let (r2, e2, w2, d2) =
      recv-header r1 inner_kind (length inner) bufsize (inner ++ (tail ++ later)) w1
        (omega (arith, c, d1)) in
    let (r3, e3) =
      payload_read inner_kind bufsize inner (tail ++ later) r2 i (omega (arith, i, l, s)) w2
        (omega (arith, c, d1, d2)) in
    (
      r1,
      r3,
      e1 ∙ refused kind bufsize payload (payload ++ later) r1 k l s,
      ap (λ w. ctrl_recv r1 w bufsize) starts_again
          ∙ e2
          ∙ e3
          ∙ ap (λ x. received (message x inner) (tail ++ later) r3) (one_byte inner_kind k'),
    )
  where
    starts_again : payload ++ later ≡ header inner_kind (length inner) ++ (inner ++ (tail ++ later))
    starts_again =
        ap (λ w. w ++ later) p
        ∙ append_assoc (header inner_kind (length inner)) (inner ++ tail) later
        ∙ ap (λ w. header inner_kind (length inner) ++ w) (append_assoc inner tail later)
