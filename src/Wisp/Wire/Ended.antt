-- ===== src/Wisp/Wire/Ended.antt =====
-- wisp_ctrl_recv of socket_message.c on a stream that ends, at any byte.
use mathlib.Core.Path.{subst}
use pi_ghost.Base.{
  ℕ, zero, suc, ◌+◌, ◌-◌, ◌≤◌, sym, List, [], ◌∷◌, ◌++◌, ltb, length, take, drop, arith,
  length-drop, if_both,
}
use pi_ghost.Wisp.Wire.{
  Answer, moves, interrupted, failed, closed, Bytes, Outcome, returned, error, blocked, Message,
  message, chunk, ntohl, ◌>>=◌, Read, recvmsg, recv_all, recv_payload, ctrl_recv,
}
use pi_ghost.Wisp.Wire.Chunks.{recv_all-zero}

-- The peer closes its end, or a read fails.
abbrev pub Ends : List Answer → Type 0
Ends [] = ⊥
Ends (moves k ∷ os) = Ends os
Ends (interrupted ∷ os) = Ends os
Ends (failed ∷ os) = Unit
Ends (closed ∷ os) = Unit

-- At most so many bytes are read before.
abbrev pub most : List Answer → ℕ
most [] = 0
most (moves k ∷ os) = suc k + most os
most (interrupted ∷ os) = most os
most (failed ∷ os) = 0
most (closed ∷ os) = 0

-- The stream has the bytes that are read, and ends.
abbrev pub IsEnding : Bytes → List Answer → Type 0
IsEnding wire os = Ends os × (most os ≤ length wire)

abbrev pub IsSettled : Outcome Read → Type 0
IsSettled (returned (got, wire, os)) = IsEnding wire os
IsSettled error = Unit
IsSettled blocked = ⊥

chunk-bound : (k : ℕ) (bs : Bytes) → chunk k bs ≤ suc k
chunk-bound k bs = ground arith

pub recv_all-ends :
    (os : List Answer) (wire : Bytes) (want : ℕ) (got : Bytes)
    → IsEnding wire os
    → IsSettled (recv_all os wire want got)
recv_all-ends os wire zero got v = subst IsSettled (sym (recv_all-zero os wire got)) v
recv_all-ends [] wire (suc want) got v = absurd v.0
recv_all-ends (failed ∷ os) wire (suc want) got v = tt
recv_all-ends (closed ∷ os) wire (suc want) got v = tt
recv_all-ends (interrupted ∷ os) wire (suc want) got v = recv_all-ends os wire (suc want) got v
recv_all-ends (moves k ∷ os) [] (suc want) got (v, m) = absurd (omega (arith, m))
recv_all-ends (moves k ∷ os) (b ∷ bs) (suc want) got (v, m) =
    let n = chunk k (take want bs) in
    recv_all-ends os (drop n (b ∷ bs)) (suc want - n) (got ++ take n (b ∷ bs))
      (v, omega (arith, m, length-drop n (b ∷ bs), chunk-bound k (take want bs)))

abbrev pub IsOver : Outcome (Message × Bytes × List Answer) → Type 0
IsOver (returned m) = Unit
IsOver error = Unit
IsOver blocked = ⊥

payload-IsOver :
    (kind : ℕ) (o : Outcome Read)
    → IsSettled o
    → IsOver (o >>= λ r. returned (message kind r.0, r.1, r.2))
payload-IsOver kind (returned r) v = tt
payload-IsOver kind error v = tt
payload-IsOver kind blocked v = absurd v

pub header-IsOver :
    (bufsize : ℕ) (o : Outcome Read) → IsSettled o → IsOver (o >>= recv_payload bufsize)
header-IsOver bufsize (returned (hdr, wire, os)) v =
    if_both IsOver (ltb bufsize (ntohl (drop 1 hdr))) _ _ tt
      (payload-IsOver _ _ (recv_all-ends os wire (ntohl (drop 1 hdr)) [] v))
header-IsOver bufsize error v = tt
header-IsOver bufsize blocked v = absurd v

-- A receive returns if the stream ends, at whatever byte.
pub ctrl_recv-ends :
    (os : List Answer) (wire : Bytes) (bufsize : ℕ)
    → IsEnding wire os
    → IsOver (ctrl_recv os wire bufsize)
ctrl_recv-ends os wire bufsize v =
    header-IsOver bufsize (recv_all os wire 5 []) (recv_all-ends os wire 5 [] v)

pub recvmsg-ends :
    (os : List Answer) (wire : Bytes) → IsEnding wire os → IsSettled (recvmsg os wire)
recvmsg-ends [] wire v = absurd v.0
recvmsg-ends (failed ∷ os) wire v = tt
recvmsg-ends (closed ∷ os) wire v = tt
recvmsg-ends (interrupted ∷ os) wire v = recvmsg-ends os wire v
recvmsg-ends (moves k ∷ os) [] (v, m) = absurd (omega (arith, m))
recvmsg-ends (moves k ∷ os) (b ∷ bs) (v, m) =
    let n = chunk k (take 4 bs) in
    (v, omega (arith, m, length-drop n (b ∷ bs), chunk-bound k (take 4 bs)))
