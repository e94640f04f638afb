-- ===== src/Wisp/Wire/Leaks.antt =====
-- wisp_ctrl_recv_fds of socket_message.c: the descriptors that ride on a message.
use pi_ghost.Base.{
  ℕ, ◌-◌, ◌≡◌, refl, ap, ◌∙◌, Bool, true, false, List, [], ◌++◌, Option, none, some, length, take,
  drop, arith, take-drop,
}
use mathlib.Core.Path.{subst}
use mathlib.Core.List.{Perm, perm_append_comm}
use mathlib.Core.List.Perm
use pi_ghost.Wisp.Wire.{
  Answer, Bytes, Outcome, returned, error, blocked, Read, Descriptors, harvest, settle, Message,
  message, too_large, recvmsg, ctrl_recv_fds, after_first, recv_all, recv_payload, ◌>>=◌,
}
use pi_ghost.Wisp.Wire.Ended.{
  IsEnding, IsSettled, IsOver, recv_all-ends, recvmsg-ends, header-IsOver,
}

abbrev pub is_message : Option (Message × Bytes × List Answer) → Bool
is_message none = false
is_message (some (too_large kind, wire, os)) = false
is_message (some (message kind payload, wire, os)) = true

abbrev pub Result : Type 0
Result = Option (Message × Bytes × List Answer) × Descriptors

-- The kept and the closed ones are the ones that came, each once; and none is kept on an error.
abbrev pub IsAccounted : List ℕ → Result → Type 0
IsAccounted fds r = Perm (r.1.kept ++ r.1.dropped) fds × (is_message r.0 ≡ false → r.1.kept ≡ [])

harvest-IsAccounted : (max_fds : ℕ) (fds : List ℕ) → Perm (take max_fds fds ++ drop max_fds fds) fds
harvest-IsAccounted max_fds fds = rw (take-drop max_fds fds) (Perm.refl fds)

closed-IsAccounted :
    (max_fds : ℕ) (fds : List ℕ) → Perm ([] ++ (drop max_fds fds ++ take max_fds fds)) fds
closed-IsAccounted max_fds fds =
    Perm.trans (perm_append_comm (drop max_fds fds) (take max_fds fds))
      (harvest-IsAccounted max_fds fds)

returned-inj : (p q : Result) → returned p ≡ returned q → p ≡ q
returned-inj p q e = ground arith

settle-IsAccounted :
    (max_fds : ℕ) (fds : List ℕ) (m : Outcome (Message × Bytes × List Answer)) (r : Result)
    → settle (harvest max_fds fds) m ≡ returned r
    → IsAccounted fds r
settle-IsAccounted max_fds fds (returned (message kind payload, wire, os)) r e =
    subst (IsAccounted fds) (returned-inj _ r e)
      (harvest-IsAccounted max_fds fds, λ p. ground arith)
settle-IsAccounted max_fds fds (returned (too_large kind, wire, os)) r e =
    subst (IsAccounted fds) (returned-inj _ r e) (closed-IsAccounted max_fds fds, λ p. refl)
settle-IsAccounted max_fds fds error r e =
    subst (IsAccounted fds) (returned-inj _ r e) (closed-IsAccounted max_fds fds, λ p. refl)
settle-IsAccounted max_fds fds blocked r e = ground arith

first-IsAccounted :
    (bufsize max_fds : ℕ) (fds : List ℕ) (m : Outcome Read) (r : Result)
    → (m >>= after_first bufsize (harvest max_fds fds)) ≡ returned r
    → IsAccounted fds r
first-IsAccounted bufsize max_fds fds (returned (hdr, wire, os)) r e =
    settle-IsAccounted max_fds fds (recv_all os wire (5 - length hdr) hdr >>= recv_payload bufsize)
      r e
first-IsAccounted bufsize max_fds fds error r e = ground arith
first-IsAccounted bufsize max_fds fds blocked r e = ground arith

-- When a receive returns, the descriptors are accounted for.
ctrl_recv_fds-IsAccounted :
    (os : List Answer) (wire : Bytes) (bufsize max_fds : ℕ) (fds : List ℕ) (r : Result)
    → ctrl_recv_fds os wire bufsize max_fds fds ≡ returned r
    → IsAccounted fds r
ctrl_recv_fds-IsAccounted os wire bufsize max_fds fds r e =
    first-IsAccounted bufsize max_fds fds (recvmsg os wire) r e

settle-returns :
    (d : Descriptors) (m : Outcome (Message × Bytes × List Answer))
    → IsOver m
    → (r : Result) × (settle d m ≡ returned r)
settle-returns d (returned (message kind payload, wire, os)) v = (_, refl)
settle-returns d (returned (too_large kind, wire, os)) v = (_, refl)
settle-returns d error v = (_, refl)
settle-returns d blocked v = absurd v

-- wisp_ctrl_recv_fds has taken the first bytes of a message, on a stream that ends somewhere: behind
-- the message, within it, or by a read that fails. Then it returns; every descriptor that came with
-- the bytes is either handed to the caller or closed, and no descriptor both; and after an error or
-- an oversized message the caller gets none.
pub ctrl_recv_fds-ends :
    (os : List Answer) (wire : Bytes) (bufsize max_fds : ℕ) (fds : List ℕ) (first : Read)
    → recvmsg os wire ≡ returned first
    → IsEnding wire os
    → (r : Result) × (ctrl_recv_fds os wire bufsize max_fds fds ≡ returned r) × IsAccounted fds r
ctrl_recv_fds-ends os wire bufsize max_fds fds first e v =
    let d = harvest max_fds fds in
    let hdr = first.0 in
    let (r, q) =
      settle-returns d (recv_all first.2 first.1 (5 - length hdr) hdr >>= recv_payload bufsize) (
        header-IsOver bufsize (recv_all first.2 first.1 (5 - length hdr) hdr) (
          recv_all-ends first.2 first.1 (5 - length hdr) hdr
            (subst IsSettled e (recvmsg-ends os wire v)))) in
    let whole = ap (λ o. o >>= after_first bufsize d) e ∙ q in
    (r, whole, ctrl_recv_fds-IsAccounted os wire bufsize max_fds fds r whole)
