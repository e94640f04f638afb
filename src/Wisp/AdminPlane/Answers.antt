-- ===== src/Wisp/AdminPlane/Answers.antt =====
-- An admin client and admin_plane.c: what the one sends, the other answers.
use pi_ghost.Base.{
  ℕ, zero, suc, ◌-◌, ◌≤◌, ◌<◌, ◌≡◌, refl, ap, sym, ◌∙◌, false, List, [], ◌∷◌, ◌++◌, Option, some,
  arith, append-nil, length, take, Text, if_both, length-append, ◌==◌, All,
}
use pi_ghost.Wisp.Types.{Timespec, client_id_len}
use pi_ghost.Wisp.Control.{ControlPlane}
use pi_ghost.Wisp.Loop.{handle_list_query, handle_switch_query}
use pi_ghost.Wisp.Wire.{
  Answer, Bytes, Outcome, returned, error, blocked, Message, message, too_large, ctrl_send,
  ctrl_recv,
}
use pi_ghost.Wisp.Wire.Chunks.{IsAlive, count_moves}
use pi_ghost.Wisp.Wire.Ended.{IsEnding, IsOver, ctrl_recv-ends}
use pi_ghost.Wisp.Wire.Frames.{ctrl_recv-ctrl_send}
use pi_ghost.Wisp.AdminPlane.{
  recv_buf_size, list_request, switch_request, AdminCall, sends_list, sends_switch, closes_client,
  c_text, Handled, handle_request, handle_received, handle_connection,
}

abbrev pub zeros : ℕ → Bytes
zeros zero = []
zeros (suc n) = 0 ∷ zeros n

-- A client id in its char array.
abbrev pub padded : Text → Bytes
padded name = name ++ zeros (client_id_len - length name)

-- An id without a NUL that leaves room for one.
abbrev pub IsClientId : Text → Type 0
IsClientId name = (length name < client_id_len) × All (λ c. (c == 0) ≡ false) name

length-zeros : (n : ℕ) → length (zeros n) ≡ n
length-zeros zero = refl
length-zeros (suc n) = ap suc (length-zeros n)

length-padded : (name : Text) → length name < client_id_len → length (padded name) ≡ client_id_len
length-padded name h = omega (
  arith,
  h,
  length-append name (zeros (client_id_len - length name)),
  length-zeros (client_id_len - length name),
)

-- The text of an array that was cut behind the id.
c_text-padded :
    (name : Text) (n k : ℕ)
    → All (λ c. (c == 0) ≡ false) name
    → length name ≤ k
    → c_text (take k (name ++ zeros n)) ≡ name
c_text-padded [] n k a h = ends n k
  where
    ends : (n k : ℕ) → c_text (take k (zeros n)) ≡ []
    ends zero zero = refl
    ends zero (suc k) = refl
    ends (suc n) zero = refl
    ends (suc n) (suc k) = refl
c_text-padded (c ∷ cs) n zero a h = absurd (omega (arith, h))
c_text-padded (c ∷ cs) n (suc k) (e, es) h =
    rw e (ap (◌∷◌ c) (c_text-padded cs n k es (omega (arith, h))))

-- An admin client that sends SWITCH_REQUEST with a client id, however the kernel divides the bytes on
-- both sides, gets the answer of the control plane to a switch to this id, and then the connection is
-- closed.
pub handle_connection-switch :
    (cp : ControlPlane) (now : Timespec) (os left ins : List Answer) (name : Text) (out : Bytes)
    → ctrl_send os switch_request (padded name) ≡ returned (out, left)
    → IsClientId name
    → IsAlive ins
    → 37 ≤ count_moves ins
    → handle_connection cp now ins out
      ≡ some (
        (handle_switch_query cp now name).1,
        sends_switch (handle_switch_query cp now name).0 ∷ closes_client ∷ [],
      )
handle_connection-switch cp now os left ins name out e (l, a) v c =
    let n = length-padded name l in
    let (rest, r) =
      ctrl_recv-ctrl_send os left ins switch_request recv_buf_size (padded name) out [] e
        (omega arith) (omega (arith, n)) (omega (arith, n)) v (omega (arith, c, n)) in
    ap (handle_connection cp now ins) (sym (append-nil out))
    ∙ ap (handle_received cp now) r
    ∙ rw (n, c_text-padded name (client_id_len - length name) 31 a (omega (arith, l))) refl

-- An admin client that sends LIST_REQUEST gets the list of the control plane, which stays as it is,
-- and then the connection is closed.
pub handle_connection-list :
    (cp : ControlPlane) (now : Timespec) (os left ins : List Answer) (out : Bytes)
    → ctrl_send os list_request [] ≡ returned (out, left)
    → IsAlive ins
    → 5 ≤ count_moves ins
    → handle_connection cp now ins out
      ≡ some (cp, sends_list (handle_list_query cp) ∷ closes_client ∷ [])
handle_connection-list cp now os left ins out e v c =
    let (rest, r) =
      ctrl_recv-ctrl_send os left ins list_request recv_buf_size [] out [] e (omega arith)
        (omega arith) (omega arith) v (omega (arith, c)) in
    ap (handle_connection cp now ins) (sym (append-nil out)) ∙ ap (handle_received cp now) r

-- One close, at the end, after at most one answer.
abbrev pub IsClosed : List AdminCall → Type 0
IsClosed (closes_client ∷ []) = Unit
IsClosed (sends_list l ∷ closes_client ∷ []) = Unit
IsClosed (sends_switch s ∷ closes_client ∷ []) = Unit
IsClosed calls = ⊥

handle_request-IsClosed :
    (cp : ControlPlane) (now : Timespec) (kind : ℕ) (payload : Bytes)
    → IsClosed (handle_request cp now kind payload).1
handle_request-IsClosed cp now kind payload =
    if_both (λ (h : Handled). IsClosed h.1) (kind == list_request) _ _ tt
      (if_both (λ (h : Handled). IsClosed h.1) (kind == switch_request) _ _
        (if_both (λ (h : Handled). IsClosed h.1) (length payload == client_id_len) _ _ tt tt) tt)

abbrev IsDone : Option Handled → Type 0
IsDone o = (h : Handled) × (o ≡ some h) × IsClosed h.1

done : (h : Handled) → IsClosed h.1 → IsDone (some h)
done h v = (h, refl, v)

received-IsDone :
    (cp : ControlPlane) (now : Timespec) (m : Outcome (Message × Bytes × List Answer))
    → IsOver m
    → IsDone (handle_received cp now m)
received-IsDone cp now (returned (message kind payload, wire, os)) v =
    done (handle_request cp now kind payload) (handle_request-IsClosed cp now kind payload)
received-IsDone cp now (returned (too_large kind, wire, os)) v = done _ tt
received-IsDone cp now error v = done _ tt
received-IsDone cp now blocked v = absurd v

-- Whatever arrives on an admin connection before the client closes its end or a read fails, be it
-- nothing, a part of a request, or an unknown, oversized or malformed one: the handling comes to its
-- end, and the connection is closed, once and last, after at most one answer.
pub handle_connection-IsClosed :
    (cp : ControlPlane) (now : Timespec) (os : List Answer) (wire : Bytes)
    → IsEnding wire os
    → (h : Handled) × (handle_connection cp now os wire ≡ some h) × IsClosed h.1
handle_connection-IsClosed cp now os wire v =
    received-IsDone cp now (ctrl_recv os wire recv_buf_size)
      (ctrl_recv-ends os wire recv_buf_size v)
