-- ===== src/Wisp/Wire.antt =====
-- wisp/protocol/src/socket_message.c: messages on a stream socket. A call of read, write or recvmsg
-- gets one answer of the kernel: it moves at least one byte, as many as it likes up to those asked
-- for, or is interrupted, fails, or finds the peer closed. A list of answers is the fuel of the
-- loops; a call whose answers run out is still blocked.
pub mod Chunks
pub mod Delivered
pub mod Ended
pub mod Frames
pub mod Leaks
pub mod Passing
use pi_ghost.Base.{
  ℕ, zero, suc, ◌+◌, ◌-◌, ◌*◌, Bool, true, false, List, [], ◌∷◌, ◌++◌, Option, none, some,
  if◌then◌else◌, ltb, leb, length, take, drop,
}
use pi_ghost.Wisp.Types.{num_buffers}
use Prim.Native.Nat.{◌/◌, ◌%◌, ◌^◌}

pub data Answer : Type 0 where
  moves : ℕ → Answer
  interrupted failed closed : Answer

abbrev pub Bytes : Type 0
Bytes = List ℕ

-- `blocked` is a call that has not returned.
pub data Outcome {ℓ} (A : Type ℓ) : Type ℓ where
  returned : A → Outcome A
  error blocked : Outcome A

infixl 5 ◌>>=◌
abbrev pub ◌>>=◌ {ℓ κ} : {A : Type ℓ} {B : Type κ} → Outcome A → (A → Outcome B) → Outcome B
returned a >>= f = f a
error >>= f = error
blocked >>= f = blocked

abbrev smaller : ℕ → ℕ → ℕ
smaller m n = if leb m n then m else n

-- The bytes that one answer `moves k` takes of `b ∷ bs`.
abbrev pub chunk : ℕ → Bytes → ℕ
chunk k bs = suc (smaller k (length bs))

-- wisp__send_all with the bytes that are left: the bytes on the wire, and the answers left.
abbrev pub send_all : List Answer → Bytes → Bytes → Outcome (Bytes × List Answer)
send_all os [] wire = returned (wire, os)
send_all [] (b ∷ bs) wire = blocked
send_all (interrupted ∷ os) (b ∷ bs) wire = send_all os (b ∷ bs) wire
send_all (failed ∷ os) (b ∷ bs) wire = error
send_all (closed ∷ os) (b ∷ bs) wire = error
send_all (moves k ∷ os) (b ∷ bs) wire =
    send_all os (drop (chunk k bs) (b ∷ bs)) (wire ++ take (chunk k bs) (b ∷ bs))

-- What came in, what is left on the wire, and the answers left.
abbrev pub Read : Type 0
Read = Bytes × Bytes × List Answer

-- wisp__recv_all with the number of bytes that are left to receive.
abbrev pub recv_all : List Answer → Bytes → ℕ → Bytes → Outcome Read
recv_all os wire zero got = returned (got, wire, os)
recv_all [] wire (suc want) got = blocked
recv_all (interrupted ∷ os) wire (suc want) got = recv_all os wire (suc want) got
recv_all (failed ∷ os) wire (suc want) got = error
recv_all (closed ∷ os) wire (suc want) got = error
recv_all (moves k ∷ os) [] (suc want) got = blocked
recv_all (moves k ∷ os) (b ∷ bs) (suc want) got =
    let n = chunk k (take want bs) in
    recv_all os (drop n (b ∷ bs)) (suc want - n) (got ++ take n (b ∷ bs))

-- The four bytes of htonl, the most significant first, and ntohl.
abbrev pub htonl : ℕ → Bytes
htonl n = n / 2 ^ 24 % 256 ∷ n / 2 ^ 16 % 256 ∷ n / 2 ^ 8 % 256 ∷ n % 256 ∷ []

abbrev pub ntohl : Bytes → ℕ
ntohl (a ∷ b ∷ c ∷ d ∷ _) = a * 2 ^ 24 + b * 2 ^ 16 + c * 2 ^ 8 + d
ntohl _ = 0

abbrev pub header : ℕ → ℕ → Bytes
header kind len = kind % 256 ∷ htonl len

-- The length is the payload's, below 2 ^ 32.
abbrev pub ctrl_send : List Answer → ℕ → Bytes → Outcome (Bytes × List Answer)
ctrl_send os kind payload = do
  sent ← send_all os (header kind (length payload)) []
  send_all sent.1 payload sent.0

-- The control message: the bytes of its data that `cmsg_len` counts, and the descriptors in them, four
-- bytes each.
pub record Cmsg : Type 0 where
  pub data_len : ℕ
  pub carried : List ℕ

abbrev pub cmsg_of : List ℕ → Cmsg
cmsg_of fds = record { data_len = 4 * length fds; carried = fds }

-- The descriptors that the kernel passes on.
abbrev pub rides : Cmsg → List ℕ
rides c = take (c.data_len / 4) c.carried

-- What is on the wire and the answers left, with the descriptors that ride on its first byte.
abbrev pub Sent : Type 0
Sent = (Bytes × List Answer) × List ℕ

abbrev pub with_fds : List ℕ → Outcome (Bytes × List Answer) → Outcome Sent
with_fds fds o = o >>= λ r. returned (r, fds)

-- sendmsg with the header and a control message, which goes with the first byte: what it took, what
-- is left, and the descriptors that were passed on.
abbrev pub sendmsg : List Answer → Bytes → Cmsg → Outcome (Read × List ℕ)
sendmsg [] hdr c = blocked
sendmsg (interrupted ∷ os) hdr c = sendmsg os hdr c
sendmsg (failed ∷ os) hdr c = error
sendmsg (closed ∷ os) hdr c = error
sendmsg (moves k ∷ os) [] c = returned (([], [], os), [])
sendmsg (moves k ∷ os) (b ∷ bs) c =
    let n = chunk k bs in returned ((take n (b ∷ bs), drop n (b ∷ bs), os), rides c)

abbrev pub send_header : List Answer → Bytes → Cmsg → Outcome Sent
send_header os hdr c = sendmsg os hdr c >>= λ s. with_fds s.1 (send_all s.0.2 s.0.1 s.0.0)

abbrev pub send_with_fds : List Answer → ℕ → Bytes → List ℕ → Outcome Sent
send_with_fds os kind payload fds =
    send_header os (header kind (length payload)) (cmsg_of fds) >>= λ s.
    with_fds s.1 (send_all s.0.1 payload s.0.0)

abbrev pub ctrl_send_fds : List Answer → ℕ → Bytes → List ℕ → Outcome Sent
ctrl_send_fds os kind payload [] = with_fds [] (ctrl_send os kind payload)
ctrl_send_fds os kind payload (fd ∷ fds) =
    if ltb num_buffers (length (fd ∷ fds)) then error else send_with_fds os kind payload (fd ∷ fds)

-- Returns 0 or -2.
pub data Message : Type 0 where
  message : (kind : ℕ) → (payload : Bytes) → Message
  too_large : (kind : ℕ) → Message

abbrev kind_of : Bytes → ℕ
kind_of [] = 0
kind_of (k ∷ _) = k

-- From the header on.
abbrev pub recv_payload : ℕ → Read → Outcome (Message × Bytes × List Answer)
recv_payload bufsize (hdr, wire, os) =
    let len = ntohl (drop 1 hdr) in
    if ltb bufsize len
    then returned (too_large (kind_of hdr), wire, os)
    else (recv_all os wire len [] >>= λ r. returned (message (kind_of hdr) r.0, r.1, r.2))

abbrev pub ctrl_recv : List Answer → Bytes → ℕ → Outcome (Message × Bytes × List Answer)
ctrl_recv os wire bufsize = recv_all os wire 5 [] >>= recv_payload bufsize

-- recvmsg, which takes at most the five bytes of a header; 0 and -1 are errors.
abbrev pub recvmsg : List Answer → Bytes → Outcome Read
recvmsg [] wire = blocked
recvmsg (interrupted ∷ os) wire = recvmsg os wire
recvmsg (failed ∷ os) wire = error
recvmsg (closed ∷ os) wire = error
recvmsg (moves k ∷ os) [] = blocked
recvmsg (moves k ∷ os) (b ∷ bs) =
    let n = chunk k (take 4 bs) in returned (take n (b ∷ bs), drop n (b ∷ bs), os)

-- The descriptors that the caller gets, and those that were closed.
pub record Descriptors : Type 0 where
  pub kept : List ℕ
  pub dropped : List ℕ

-- Those that came with the first bytes: as many as fit, and the others are closed.
abbrev pub harvest : ℕ → List ℕ → Descriptors
harvest max_fds fds = record { kept = take max_fds fds; dropped = drop max_fds fds }

abbrev pub close_kept : Descriptors → Descriptors
close_kept d = record { kept = []; dropped = d.dropped ++ d.kept }

-- 0, or one of the two errors, which close what was kept.
abbrev pub settle :
    Descriptors
    → Outcome (Message × Bytes × List Answer)
    → Outcome (Option (Message × Bytes × List Answer) × Descriptors)
settle d (returned (message kind payload, wire, os)) =
    returned (some (message kind payload, wire, os), d)
settle d (returned (too_large kind, wire, os)) =
    returned (some (too_large kind, wire, os), close_kept d)
settle d error = returned (none, close_kept d)
settle d blocked = blocked

abbrev pub after_first :
    ℕ → Descriptors → Read → Outcome (Option (Message × Bytes × List Answer) × Descriptors)
after_first bufsize d (hdr, wire, os) =
    settle d (recv_all os wire (5 - length hdr) hdr >>= recv_payload bufsize)

-- The result is `none` for -1; `fds` are the descriptors that ride on the message.
abbrev pub ctrl_recv_fds :
    List Answer
    → Bytes
    → ℕ
    → ℕ
    → List ℕ
    → Outcome (Option (Message × Bytes × List Answer) × Descriptors)
ctrl_recv_fds os wire bufsize max_fds fds =
    recvmsg os wire >>= after_first bufsize (harvest max_fds fds)
