-- ===== src/Wisp/Wire/Chunks.antt =====
-- The loops of socket_message.c end, and put the bytes together again, however the kernel divides
-- them.
use native.Mathlib.Nat.{zero-add, suc-add}
use pi_ghost.Base.{
  ℕ, zero, suc, ◌+◌, ◌-◌, ◌≤◌, ◌≡◌, refl, ap, sym, ◌∙◌, List, [], ◌∷◌, ◌++◌, length, take, drop,
  arith, append_assoc, append-nil, length-drop, length-take,
}
use pi_ghost.Wisp.Wire.{
  Answer, moves, interrupted, failed, closed, Bytes, Outcome, returned, chunk, recv_all, Read,
}

-- Answers without an error or an end.
abbrev pub IsAlive : List Answer → Type 0
IsAlive [] = Unit
IsAlive (moves k ∷ os) = IsAlive os
IsAlive (interrupted ∷ os) = IsAlive os
IsAlive (failed ∷ os) = ⊥
IsAlive (closed ∷ os) = ⊥

-- The answers that move bytes.
abbrev pub count_moves : List Answer → ℕ
count_moves [] = 0
count_moves (moves k ∷ os) = suc (count_moves os)
count_moves (_ ∷ os) = count_moves os

pub take-split : (n m : ℕ) (xs : Bytes) → take n xs ++ take m (drop n xs) ≡ take (n + m) xs
take-split zero m xs = ap (λ k. take k xs) (sym (zero-add m))
take-split (suc n) zero [] = rw suc-add refl
take-split (suc n) (suc m) [] = rw suc-add refl
take-split (suc n) m (x ∷ xs) = rw suc-add (ap (◌∷◌ x) (take-split n m xs))

pub drop-split : (n m : ℕ) (xs : Bytes) → drop m (drop n xs) ≡ drop (n + m) xs
drop-split zero m xs = ap (λ k. drop k xs) (sym (zero-add m))
drop-split (suc n) zero [] = rw suc-add refl
drop-split (suc n) (suc m) [] = rw suc-add refl
drop-split (suc n) m (x ∷ xs) = rw suc-add (drop-split n m xs)

pub recv_all-zero :
    (os : List Answer) (wire got : Bytes) → recv_all os wire zero got ≡ returned (got, wire, os)
recv_all-zero [] wire got = refl
recv_all-zero (moves k ∷ os) [] got = refl
recv_all-zero (moves k ∷ os) (b ∷ bs) got = refl
recv_all-zero (interrupted ∷ os) wire got = refl
recv_all-zero (failed ∷ os) wire got = refl
recv_all-zero (closed ∷ os) wire got = refl

-- A read that is whole: the bytes that were asked for, those after them, and live answers.
abbrev pub IsWhole : List Answer → Bytes → ℕ → Bytes → Outcome Read → Type 0
IsWhole os wire want got o =
    (rest : List Answer) × (o ≡ returned (got ++ take want wire, drop want wire, rest))
    × IsAlive rest
    × (count_moves os ≤ count_moves rest + want)

abbrev read_of : Bytes → Bytes → List Answer → Outcome Read
read_of got wire os = returned (got, wire, os)

module _ (k : ℕ) (b : ℕ) (bs : Bytes) (want : ℕ) where
  -- The bytes of one answer.
  abbrev part : ℕ
  part = chunk k (take want bs)

  part-bounds : want ≤ length bs → (1 ≤ part) × (part ≤ suc want)
  part-bounds h = ground (arith, length-take want bs)

  whole :
      (os : List Answer) (got : Bytes) (rest : List Answer)
      → part ≤ suc want
      → read_of
          ((got ++ take part (b ∷ bs)) ++ take (suc want - part) (drop part (b ∷ bs)))
          (drop (suc want - part) (drop part (b ∷ bs)))
          rest
        ≡ read_of (got ++ take (suc want) (b ∷ bs)) (drop (suc want) (b ∷ bs)) rest
  whole os got rest q =
      rw
        (
          append_assoc,
          take-split part (suc want - part) (b ∷ bs),
          drop-split part (suc want - part) (b ∷ bs),
          refills q,
        )
        refl
    where
      refills : part ≤ suc want → part + (suc want - part) ≡ suc want
      refills h = omega (arith, h)

-- However the bytes are divided, wisp__recv_all returns exactly the number of bytes that it is asked
-- for, in their order, and leaves the others on the wire. There are as many answers that move bytes,
-- with any interruptions between them, and no error.
pub recv_all-IsWhole :
    (os : List Answer) (wire : Bytes) (want : ℕ) (got : Bytes)
    → want ≤ length wire
    → IsAlive os
    → want ≤ count_moves os
    → IsWhole os wire want got (recv_all os wire want got)
recv_all-IsWhole os wire zero got l v c = (
  os,
  recv_all-zero os wire got ∙ ap (λ g. returned (g, wire, os)) (sym (append-nil got)),
  v,
  omega arith,
)
recv_all-IsWhole [] wire (suc want) got l v c = ground arith
recv_all-IsWhole (failed ∷ os) wire (suc want) got l v c = absurd v
recv_all-IsWhole (closed ∷ os) wire (suc want) got l v c = absurd v
recv_all-IsWhole (interrupted ∷ os) wire (suc want) got l v c =
    recv_all-IsWhole os wire (suc want) got l v c
recv_all-IsWhole (moves k ∷ os) [] (suc want) got l v c = ground arith
recv_all-IsWhole (moves k ∷ os) (b ∷ bs) (suc want) got l v c =
    let n = part k b bs want in
    let (p, q) = part-bounds k b bs want (omega (arith, l)) in
    let (rest, e, w, d) =
      recv_all-IsWhole os (drop n (b ∷ bs)) (suc want - n) (got ++ take n (b ∷ bs))
        (omega (arith, l, length-drop n (b ∷ bs))) v (omega (arith, c, p)) in
    (rest, e ∙ whole k b bs want os got rest q, w, omega (arith, d, p, q))
