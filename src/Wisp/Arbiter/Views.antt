-- ===== src/Wisp/Arbiter/Views.antt =====
-- How the updates of session_table.c change the role of each slot.
use pi_ghost.Base.{
  ℕ, zero, suc, ◌≡◌, ◌≢◌, refl, ap, Bool, true, false, List, [], ◌∷◌, some, if◌then◌else◌, ◌==◌,
  ◌<◌, length, get_or, arith,
}
use pi_ghost.Wisp.Table.{Session, free_slot, update_slots, any_taken, find_index}
use pi_ghost.Wisp.Queue.{is_queued}
use pi_ghost.Wisp.Arbiter.{bystander, role_of}

-- The slots in use read as they are, and the others as bystanders.
pub get_or-update :
    (ss : List Session) (i j : ℕ) (f : Session → Session)
    → (f free_slot).in_use ≡ false
    → let s = get_or (update_slots ss i f) j free_slot in
      let old = get_or ss j free_slot in
      role_of s.in_use s.state
      ≡ (if i == j then role_of (f old).in_use (f old).state else role_of old.in_use old.state)
get_or-update [] i j f h = ground arith
get_or-update (s ∷ ss) zero zero f h = ground arith
get_or-update (s ∷ ss) zero (suc j) f h = ground arith
get_or-update (s ∷ ss) (suc i) zero f h = ground arith
get_or-update (s ∷ ss) (suc i) (suc j) f h = ground (arith, get_or-update ss i j f h)

pub taken-role :
    (ss : List Session) (j : ℕ)
    → any_taken ss ≡ false
    → let s = get_or ss j free_slot in role_of s.in_use s.state ≡ bystander
taken-role [] j h = refl
taken-role (s ∷ ss) zero h = ground arith
taken-role (s ∷ ss) (suc j) h = ground (arith, taken-role ss j)

pub role-taken :
    (ss : List Session)
    → ((j : ℕ) → let s = get_or ss j free_slot in role_of s.in_use s.state ≡ bystander)
    → any_taken ss ≡ false
role-taken [] h = refl
role-taken (s ∷ ss) h = ground (arith, h 0, role-taken ss (λ j. h (suc j)))

pub in_use-update :
    (ss : List Session) (i j : ℕ) (f : Session → Session)
    → ((s : Session) → (f s).in_use ≡ s.in_use)
    → (get_or (update_slots ss i f) j free_slot).in_use ≡ (get_or ss j free_slot).in_use
in_use-update [] i j f h = refl
in_use-update (s ∷ ss) zero zero f h = h s
in_use-update (s ∷ ss) zero (suc j) f h = refl
in_use-update (s ∷ ss) (suc i) zero f h = refl
in_use-update (s ∷ ss) (suc i) (suc j) f h = in_use-update ss i j f h

-- What the loops find has the property, and stands below the length.
pub find_index-found :
    (p : Session → Bool) (ss : List Session) (i : ℕ)
    → find_index p ss ≡ some i
    → (i < length ss) × (p (get_or ss i free_slot) ≡ true)
find_index-found p [] i e = ground arith
find_index-found p (s ∷ ss) zero e = ground (arith, find_index-found p ss)
find_index-found p (s ∷ ss) (suc i) e = ground (arith, find_index-found p ss i)

pub get_or-update_below :
    (ss : List Session) (i j : ℕ) (f : Session → Session)
    → i < length ss
    → let s = get_or (update_slots ss i f) j free_slot in
      let old = get_or ss j free_slot in
      role_of s.in_use s.state
      ≡ (if i == j then role_of (f old).in_use (f old).state else role_of old.in_use old.state)
get_or-update_below [] i j f h = ground arith
get_or-update_below (s ∷ ss) zero zero f h = ground arith
get_or-update_below (s ∷ ss) zero (suc j) f h = ground arith
get_or-update_below (s ∷ ss) (suc i) zero f h = ground arith
get_or-update_below (s ∷ ss) (suc i) (suc j) f h = ground (arith, get_or-update_below ss i j f)

-- An update that makes no session queued makes no slot queued.
pub is_queued-update :
    (ss : List Session) (i j : ℕ) (f : Session → Session)
    → ((s : Session) → is_queued (f s) ≡ true → is_queued s ≡ true)
    → is_queued (get_or (update_slots ss i f) j free_slot) ≡ true
    → is_queued (get_or ss j free_slot) ≡ true
is_queued-update [] i j f h q = q
is_queued-update (s ∷ ss) zero zero f h q = h s q
is_queued-update (s ∷ ss) zero (suc j) f h q = q
is_queued-update (s ∷ ss) (suc i) zero f h q = q
is_queued-update (s ∷ ss) (suc i) (suc j) f h q = is_queued-update ss i j f h q

pub get_or-update_apart :
    (ss : List Session) (i j : ℕ) (f : Session → Session)
    → i ≢ j
    → get_or (update_slots ss i f) j free_slot ≡ get_or ss j free_slot
get_or-update_apart [] i j f h = refl
get_or-update_apart (s ∷ ss) zero zero f h = absurd (h refl)
get_or-update_apart (s ∷ ss) zero (suc j) f h = refl
get_or-update_apart (s ∷ ss) (suc i) zero f h = refl
get_or-update_apart (s ∷ ss) (suc i) (suc j) f h = get_or-update_apart ss i j f (λ e. h (ap suc e))
