-- ===== src/RstPages/Sorted.antt =====
-- sorted() on the paths of generate_rst.py.
use mathlib.Core.List.{Perm}
use mathlib.Core.List.Perm
use pi_ghost.Base.{◌≡◌, refl, true, false, inl, inr, List, [], ◌∷◌, Text, All, arith, Bool-cases}
use pi_ghost.RstPages.{text_le, insert, sorted}

-- Every text is at most those behind it.
abbrev pub IsSorted : List Text → Type 0
IsSorted [] = Unit
IsSorted (x ∷ xs) = All (λ y. text_le x y ≡ true) xs × IsSorted xs

text_le-total : (a b : Text) → text_le a b ≡ false → text_le b a ≡ true
text_le-total [] b h = ground arith
text_le-total (x ∷ a) [] h = refl
text_le-total (x ∷ a) (y ∷ b) h = ground (arith, text_le-total a b)

text_le_trans : (a b c : Text) → text_le a b ≡ true → text_le b c ≡ true → text_le a c ≡ true
text_le_trans [] b c h g = refl
text_le_trans (x ∷ a) [] c h g = ground arith
text_le_trans (x ∷ a) (y ∷ b) [] h g = ground arith
text_le_trans (x ∷ a) (y ∷ b) (z ∷ c) h g = ground (arith, text_le_trans a b c)

All-trans :
    (x y : Text) (ys : List Text)
    → text_le x y ≡ true
    → All (λ z. text_le y z ≡ true) ys
    → All (λ z. text_le x z ≡ true) ys
All-trans x y [] h g = tt
All-trans x y (z ∷ zs) h g = (text_le_trans x y z h g.0, All-trans x y zs h g.1)

All-insert :
    (x y : Text) (ys : List Text)
    → text_le y x ≡ true
    → All (λ z. text_le y z ≡ true) ys
    → All (λ z. text_le y z ≡ true) (insert x ys)
All-insert x y [] h g = (h, tt)
All-insert x y (z ∷ zs) h g = elim (Bool-cases (text_le x z)) [
  | inl e ↦ rw e (h, g)
  | inr e ↦ rw e (g.0, All-insert x y zs h g.1)
]

insert-IsSorted : (x : Text) (ys : List Text) → IsSorted ys → IsSorted (insert x ys)
insert-IsSorted x [] s = (tt, tt)
insert-IsSorted x (y ∷ ys) s = elim (Bool-cases (text_le x y)) [
  | inl e ↦ rw e ((e, All-trans x y ys e s.0), s)
  | inr e ↦ rw e (All-insert x y ys (text_le-total x y e) s.0, insert-IsSorted x ys s.1)
]

pub sorted-IsSorted : (xs : List Text) → IsSorted (sorted xs)
sorted-IsSorted [] = tt
sorted-IsSorted (x ∷ xs) = insert-IsSorted x (sorted xs) (sorted-IsSorted xs)

insert-Perm : (x : Text) (ys : List Text) → Perm (insert x ys) (x ∷ ys)
insert-Perm x [] = Perm.rfl
insert-Perm x (y ∷ ys) = elim (Bool-cases (text_le x y)) [
  | inl e ↦ rw e Perm.rfl
  | inr e ↦ rw e (Perm.trans (Perm.cons y (insert-Perm x ys)) (Perm.swap x y ys))
]

pub sorted-Perm : (xs : List Text) → Perm (sorted xs) xs
sorted-Perm [] = Perm.rfl
sorted-Perm (x ∷ xs) = Perm.trans (insert-Perm x (sorted xs)) (Perm.cons x (sorted-Perm xs))
