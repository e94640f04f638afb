-- ===== src/Wisp/Client/Held.antt =====
-- The descriptors for the signal that a client of client_control.c gets with its grants.
use mathlib.Core.Path.{subst}
use mathlib.Core.List.{Perm, perm_middle}
use mathlib.Core.List.Perm
use pi_ghost.Base.{
  ℕ, ◌≡◌, refl, sym, Bool, true, false, List, [], ◌∷◌, ◌++◌, Option, none, some, if_both, ◌==◌,
  append_assoc,
}
use pi_ghost.Wisp.Client.{
  Client, ClientCall, sends_msg, closes_fd, unmaps, signals, with_ring, close_if, taken_if,
  handle_grant, disconnect_client, unmap_if,
}
use pi_ghost.Wisp.Client.Thread.{
  activate_grant, activate_deny, deactivate, evict_pending, version_mismatch, other, dmabuf_ack,
  mode_reply, Incoming, got, failed, receive,
}

-- The descriptors that were closed, the latest first.
abbrev pub closed_by : List ClientCall → List ℕ
closed_by [] = []
closed_by (closes_fd fd ∷ calls) = fd ∷ closed_by calls
closed_by (sends_msg m ∷ calls) = closed_by calls
closed_by (unmaps ∷ calls) = closed_by calls
closed_by (signals ∷ calls) = closed_by calls

abbrev pub as_list : Option ℕ → List ℕ
as_list none = []
as_list (some fd) = fd ∷ []

-- Those that came with a grant.
abbrev pub fds_of : Incoming → List ℕ
fds_of (got (activate_grant generation) fd) = as_list fd
fds_of incoming = []

abbrev pub granted_fds : List (Bool × Incoming) → List ℕ
granted_fds [] = []
granted_fds ((attached, incoming) ∷ rest) = granted_fds rest ++ fds_of incoming

abbrev pub receive_all : List (Bool × Incoming) → Client → Client
receive_all [] ctx = ctx
receive_all ((attached, incoming) ∷ rest) ctx = receive_all rest (receive attached incoming ctx)

-- The descriptor in use, and those that were closed.
abbrev accounted : Client → List ℕ
accounted ctx = as_list ctx.frame_fd ++ closed_by ctx.calls

adopted-accounted :
    (fd : ℕ) (o : Option ℕ) (ctx : Client)
    → fd ∷ closed_by (close_if o ctx).calls ≡ fd ∷ (as_list o ++ closed_by ctx.calls)
adopted-accounted fd none ctx = refl
adopted-accounted fd (some k) ctx = refl

taken-accounted :
    (ring : Bool) (generation fd : ℕ) (ctx : Client)
    → Perm (accounted (taken_if ring generation fd ctx).1) (fd ∷ accounted ctx)
taken-accounted true generation fd ctx =
    subst (λ l. Perm l (fd ∷ accounted ctx)) (sym (adopted-accounted fd ctx.frame_fd ctx))
      (Perm.refl (fd ∷ accounted ctx))
taken-accounted false generation fd ctx = perm_middle (as_list ctx.frame_fd) (closed_by ctx.calls)

granted-accounted :
    (attached : Bool) (generation : ℕ) (frame_fd : Option ℕ) (ctx : Client)
    → Perm
        (accounted (handle_grant attached generation frame_fd ctx).1)
        (as_list frame_fd ++ accounted ctx)
granted-accounted attached generation none ctx = Perm.refl (accounted ctx)
granted-accounted attached generation (some fd) ctx =
    taken-accounted (with_ring attached ctx).ring generation fd (with_ring attached ctx)

receive-accounted :
    (attached : Bool) (incoming : Incoming) (ctx : Client)
    → Perm (accounted (receive attached incoming ctx)) (fds_of incoming ++ accounted ctx)
receive-accounted attached (got (activate_grant generation) fd) ctx =
    granted-accounted attached generation fd ctx
receive-accounted attached (got activate_deny fd) ctx = Perm.refl (accounted ctx)
receive-accounted attached (got deactivate fd) ctx = Perm.refl (accounted ctx)
receive-accounted attached (got evict_pending fd) ctx = Perm.refl (accounted ctx)
receive-accounted attached (got version_mismatch fd) ctx = Perm.refl (accounted ctx)
receive-accounted attached (got other fd) ctx = Perm.refl (accounted ctx)
receive-accounted attached (got (dmabuf_ack accepted) fd) ctx =
    if_both (λ d. Perm (accounted d) (accounted ctx)) (accepted == 0) _ _
      (Perm.refl (accounted ctx)) (Perm.refl (accounted ctx))
receive-accounted attached (got (mode_reply mode) fd) ctx = Perm.refl (accounted ctx)
receive-accounted attached (failed reply) ctx = Perm.refl (accounted ctx)

receive_all-accounted :
    (messages : List (Bool × Incoming)) (ctx : Client)
    → Perm (accounted (receive_all messages ctx)) (granted_fds messages ++ accounted ctx)
receive_all-accounted [] ctx = Perm.refl (accounted ctx)
receive_all-accounted ((attached, incoming) ∷ rest) ctx =
    Perm.trans (receive_all-accounted rest (receive attached incoming ctx)) (
      subst (λ l. Perm (granted_fds rest ++ accounted (receive attached incoming ctx)) l)
        (sym (append_assoc (granted_fds rest) (fds_of incoming) (accounted ctx)))
        (Perm.append_left (granted_fds rest) (receive-accounted attached incoming ctx)))

disconnect-accounted :
    (o : Option ℕ) (ring : Bool) (ctx : Client)
    → closed_by (close_if o (unmap_if ring ctx)).calls ≡ as_list o ++ closed_by ctx.calls
disconnect-accounted none true ctx = refl
disconnect-accounted none false ctx = refl
disconnect-accounted (some fd) true ctx = refl
disconnect-accounted (some fd) false ctx = refl

-- A session without a descriptor for the signal that handles any messages and disconnects has closed
-- the socket, every descriptor that came with a grant, and nothing else, each once more than before.
pub disconnect-closes :
    (messages : List (Bool × Incoming)) (ctx : Client)
    → ctx.frame_fd ≡ none
    → Perm
        (closed_by (disconnect_client (receive_all messages ctx)).calls)
        ((receive_all messages ctx).ctrl_fd ∷ (granted_fds messages ++ closed_by ctx.calls))
disconnect-closes messages ctx e =
    let last = receive_all messages ctx in
    subst (λ l. Perm l (last.ctrl_fd ∷ (granted_fds messages ++ closed_by ctx.calls)))
      (sym (disconnect-accounted last.frame_fd last.ring _))
      (Perm.trans (perm_middle (as_list last.frame_fd) (closed_by last.calls)) (
        Perm.cons last.ctrl_fd (
          subst
            (λ o.
              Perm (accounted last) (granted_fds messages ++ (as_list o ++ closed_by ctx.calls)))
            e (receive_all-accounted messages ctx))))
