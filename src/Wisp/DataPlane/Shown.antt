-- ===== src/Wisp/DataPlane/Shown.antt =====
-- The frames of a client of client_control.c on their way through the ring to the sink of data_plane.c.
use mathlib.Core.Path.{subst}
use pi_ghost.Base.{
  ℕ, zero, suc, ◌<◌, ◌≡◌, refl, ap, sym, ◌∙◌, Bool, true, false, ◌||◌, List, [], ◌∷◌, Option, none,
  some, arith, length, get_or, ◌==◌, All, if◌then◌else◌,
}
use pi_ghost.Wisp.Ring.{
  Ring, stamp_slot, make_latest, set_at, evict_client, write_slot, new_ring, claim, free_buffer,
  write_unclaimed, lock,
}
use pi_ghost.Wisp.DataPlane.{
  Blit, DataPlane, data_plane_init, drop_frame, stamp_of, check_out, blit, finish, drained, kick,
  set_mode,
}

abbrev pub has : ℕ → List ℕ → Bool
has x [] = false
has x (y ∷ ys) = y == x || has x ys

-- Where the data plane is in a turn: at its wait, with a buffer that it has checked out, or after the
-- blit, with the time stamp of the frame.
pub data Place : Type 0 where
  waits : Place
  holds : (idx : ℕ) → Place
  has_shown : (write_ts_ns : ℕ) → Place

-- With the buffer that the client has stamped and not yet made the latest, and all ids that it has
-- stamped on a buffer, the latest first.
pub record Stage : Type 0 where
  pub dp : DataPlane
  pub place : Place
  pub stamped : Option ℕ
  pub stamped_ids : List ℕ

abbrev pub with_ring : Ring → DataPlane → DataPlane
with_ring ring dp = record dp { ring = ring }

abbrev pub begun : Stage → Option ℕ × DataPlane → Stage
begun s (none, dp) = record s { dp = drop_frame dp }
begun s (some idx, dp) = record s { dp = dp; place = holds idx }

-- What the three threads do, in any order; the client stamps a buffer before it takes the mutex, and
-- makes it the latest under the mutex. The client's index is one of the three buffers.
pub data Act : Stage → Stage → Type 0 where
  stamps :
      (s : Stage) (idx id now_ns : ℕ)
      → idx < 3
      → Act s (record s {
        dp = with_ring (stamp_slot s.dp.ring idx id now_ns) s.dp;
        stamped = some idx;
        stamped_ids = id ∷ s.stamped_ids;
      })
  publishes :
      (s : Stage) (idx : ℕ)
      → s.stamped ≡ some idx
      → Act s (record s { dp = with_ring (make_latest s.dp.ring idx) s.dp; stamped = none })
  signals :
      (s : Stage) → Act s (record s { dp = record s.dp { frame_signals = suc s.dp.frame_signals } })
  writes : (s : Stage) → Act s (record s { dp = with_ring (write_slot s.dp.ring).1 s.dp })
  evicts : (s : Stage) → Act s (record s { dp = kick (with_ring (evict_client s.dp.ring) s.dp) })
  changes_mode :
      (s : Stage) (width height : ℕ) → Act s (record s { dp = set_mode width height s.dp })
  starts_turn :
      (s : Stage)
      → s.place ≡ waits
      → s.dp.running ≡ true
      → 0 < s.dp.frame_signals
      → Act s (begun s (check_out (drained s.dp)))
  shows :
      (s : Stage) (idx : ℕ)
      → s.place ≡ holds idx
      → Act s (record s { dp = blit idx s.dp; place = has_shown (stamp_of s.dp idx) })
  finishes :
      (s : Stage) (taken : Bool) (now_ns write_ts_ns : ℕ)
      → s.place ≡ has_shown write_ts_ns
      → Act s (record s { dp = finish taken now_ns write_ts_ns s.dp; place = waits })

pub data Acts : Stage → Stage → Type 0 where
  no_act : {s : Stage} → Acts s s
  next_act : {s t u : Stage} → Act s t → Acts t u → Acts s u

abbrev pub first_stage : ℕ → ℕ → Stage
first_stage width height = record {
  dp = data_plane_init new_ring width height;
  place = waits;
  stamped = none;
  stamped_ids = [];
}

-- The buffer, if there is one, holds an id that was stamped.
abbrev HoldsStamped : Option ℕ → List ℕ → List ℕ → Type 0
HoldsStamped none ids published = Unit
HoldsStamped (some i) ids published = (i < length ids) × (has (get_or ids i 0) published ≡ true)

abbrev pub WasStamped : List ℕ → Blit → Type 0
WasStamped published b = has b.frame_id published ≡ true

abbrev buffer_of : Place → Option ℕ
buffer_of waits = none
buffer_of (holds idx) = some idx
buffer_of (has_shown write_ts_ns) = none

record IsFaithful (s : Stage) : Type 0 where
  three : length s.dp.ring.frame_id ≡ 3
  written : HoldsStamped s.stamped s.dp.ring.frame_id s.stamped_ids
  latest : HoldsStamped s.dp.ring.latest_ready s.dp.ring.frame_id s.stamped_ids
  held : HoldsStamped (buffer_of s.place) s.dp.ring.frame_id s.stamped_ids
  shown : All (WasStamped s.stamped_ids) s.dp.blits

length-set_at : (xs : List ℕ) (i x : ℕ) → length (set_at xs i x) ≡ length xs
length-set_at [] i x = refl
length-set_at (y ∷ ys) zero x = refl
length-set_at (y ∷ ys) (suc i) x = ap suc (length-set_at ys i x)

pub get_or-set_at :
    (xs : List ℕ) (i j x : ℕ)
    → j < length xs
    → get_or (set_at xs i x) j 0 ≡ (if i == j then x else get_or xs j 0)
get_or-set_at [] i j x h = absurd (omega (arith, h))
get_or-set_at (y ∷ ys) zero zero x h = refl
get_or-set_at (y ∷ ys) zero (suc j) x h = ground arith
get_or-set_at (y ∷ ys) (suc i) zero x h = ground arith
get_or-set_at (y ∷ ys) (suc i) (suc j) x h =
    ground (arith, get_or-set_at ys i j x (omega (arith, h)))

-- Another frame is stamped, in this or in another buffer.
still_stamped :
    (o : Option ℕ) (ids published : List ℕ) (idx id : ℕ)
    → HoldsStamped o ids published
    → HoldsStamped o (set_at ids idx id) (id ∷ published)
still_stamped none ids published idx id h = tt
still_stamped (some i) ids published idx id (l, h) =
    (omega (arith, l, length-set_at ids idx id), ground (arith, get_or-set_at ids idx i id l))

just_stamped :
    (ids published : List ℕ) (idx id : ℕ)
    → idx < length ids
    → HoldsStamped (some idx) (set_at ids idx id) (id ∷ published)
just_stamped ids published idx id l =
    (omega (arith, l, length-set_at ids idx id), ground (arith, get_or-set_at ids idx idx id l))

still_shown :
    (blits : List Blit) (published : List ℕ) (id : ℕ)
    → All (WasStamped published) blits
    → All (WasStamped (id ∷ published)) blits
still_shown [] published id h = tt
still_shown (b ∷ bs) published id (h, hs) = (ground arith, still_shown bs published id hs)

begun-IsFaithful :
    (s : Stage) (o : Option ℕ)
    → s.dp.ring.latest_ready ≡ o
    → IsFaithful s
    → IsFaithful (begun s (o, record (drained s.dp) { ring = lock s.dp.ring o }))
begun-IsFaithful s none e v = record {
  three = v.three;
  written = v.written;
  latest = v.latest;
  held = v.held;
  shown = v.shown;
}
begun-IsFaithful s (some i) e v = record {
  three = v.three;
  written = v.written;
  latest = v.latest;
  held = subst (λ o. HoldsStamped o s.dp.ring.frame_id s.stamped_ids) e v.latest;
  shown = v.shown;
}

written-IsFaithful :
    (s : Stage) (r : Ring)
    → (r.latest_ready ≡ s.dp.ring.latest_ready) × (r.frame_id ≡ s.dp.ring.frame_id)
    → IsFaithful s
    → IsFaithful (record s { dp = with_ring r s.dp })
written-IsFaithful s r (l, f) v = record {
  three = ap length f ∙ v.three;
  written = subst (λ ids. HoldsStamped s.stamped ids s.stamped_ids) (sym f) v.written;
  latest =
      subst (λ o. HoldsStamped o r.frame_id s.stamped_ids) (sym l)
        (subst (λ ids. HoldsStamped s.dp.ring.latest_ready ids s.stamped_ids) (sym f) v.latest);
  held = subst (λ ids. HoldsStamped (buffer_of s.place) ids s.stamped_ids) (sym f) v.held;
  shown = v.shown;
}

claim-keeps :
    (r : Ring) (o : Option ℕ)
    → ((claim r o).1.latest_ready ≡ r.latest_ready) × ((claim r o).1.frame_id ≡ r.frame_id)
claim-keeps r none = (refl, refl)
claim-keeps r (some i) = (refl, refl)

write_unclaimed-keeps :
    (r : Ring) (o : Option ℕ)
    → ((write_unclaimed r o).1.latest_ready ≡ r.latest_ready)
      × ((write_unclaimed r o).1.frame_id ≡ r.frame_id)
write_unclaimed-keeps r none = claim-keeps r (free_buffer r 0 3)
write_unclaimed-keeps r (some i) = (refl, refl)

finish-IsFaithful :
    (s : Stage) (taken : Bool) (now_ns write_ts_ns : ℕ)
    → IsFaithful s
    → IsFaithful (record s { dp = finish taken now_ns write_ts_ns s.dp; place = waits })
finish-IsFaithful s true now_ns write_ts_ns v = record {
  three = v.three;
  written = v.written;
  latest = v.latest;
  held = tt;
  shown = v.shown;
}
finish-IsFaithful s false now_ns write_ts_ns v = record {
  three = v.three;
  written = v.written;
  latest = v.latest;
  held = tt;
  shown = v.shown;
}

Act-IsFaithful : {s t : Stage} → Act s t → IsFaithful s → IsFaithful t
Act-IsFaithful (signals s) v = record {
  three = v.three;
  written = v.written;
  latest = v.latest;
  held = v.held;
  shown = v.shown;
}
Act-IsFaithful (publishes s idx e) v = record {
  three = v.three;
  written = tt;
  latest = subst (λ o. HoldsStamped o s.dp.ring.frame_id s.stamped_ids) e v.written;
  held = v.held;
  shown = v.shown;
}
Act-IsFaithful (stamps s idx id now_ns h) v = record {
  three = length-set_at s.dp.ring.frame_id idx id ∙ v.three;
  written = just_stamped s.dp.ring.frame_id s.stamped_ids idx id (omega (arith, h, v.three));
  latest = still_stamped s.dp.ring.latest_ready s.dp.ring.frame_id s.stamped_ids idx id v.latest;
  held = still_stamped (buffer_of s.place) s.dp.ring.frame_id s.stamped_ids idx id v.held;
  shown = still_shown s.dp.blits s.stamped_ids id v.shown;
}
Act-IsFaithful (writes s) v =
    written-IsFaithful s (write_slot s.dp.ring).1
      (write_unclaimed-keeps s.dp.ring s.dp.ring.client_locked) v
Act-IsFaithful (evicts s) v = record {
  three = v.three;
  written = v.written;
  latest = tt;
  held = v.held;
  shown = v.shown;
}
Act-IsFaithful (changes_mode s width height) v = record {
  three = v.three;
  written = v.written;
  latest = v.latest;
  held = v.held;
  shown = v.shown;
}
Act-IsFaithful (starts_turn s e r h) v = begun-IsFaithful s s.dp.ring.latest_ready refl v
Act-IsFaithful (shows s idx e) v =
    let held = subst (λ p. HoldsStamped (buffer_of p) s.dp.ring.frame_id s.stamped_ids) e v.held in
    record {
      three = v.three;
      written = v.written;
      latest = v.latest;
      held = tt;
      shown = (held.1, v.shown);
    }
Act-IsFaithful (finishes s taken now_ns write_ts_ns e) v =
    finish-IsFaithful s taken now_ns write_ts_ns v

Acts-IsFaithful : {s t : Stage} → Acts s t → IsFaithful s → IsFaithful t
Acts-IsFaithful no_act v = v
Acts-IsFaithful (next_act a acts) v = Acts-IsFaithful acts (Act-IsFaithful a v)

-- In whatever order the client, the control plane and the data plane act, evictions between the
-- checkout of a buffer and its blit included: every frame that the sink was given carries the id of a
-- frame whose publishing the client had begun. After such an eviction it need not have ended: the
-- client may have been given the buffer anew and have stamped it before it takes the mutex.
pub Acts-shown :
    (width height : ℕ) (s : Stage)
    → Acts (first_stage width height) s
    → All (WasStamped s.stamped_ids) s.dp.blits
Acts-shown width height s acts =
    (Acts-IsFaithful acts
      (record { three = refl; written = tt; latest = tt; held = tt; shown = tt })).shown
