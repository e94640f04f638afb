-- ===== src/Wisp/FileSink/Snapshots.antt =====
-- The numbered snapshots of fb_sink_file.c: the ring of paths holds the latest ones.
use pi_ghost.Base.{
  ℕ, zero, suc, ◌+◌, ◌≤◌, ◌<◌, ◌≡◌, ◌⊎◌, refl, ap, sym, ◌∙◌, false, inl, inr, List, [], ◌∷◌, ◌++◌,
  arith, ltb, ◌==◌, length, take, drop, get_or, append_assoc, append-nil, Bool-cases, length-append,
  length-take, length-drop, drop-append, take-append, Text, ==_iff,
}
use Prim.Native.Nat.{◌%◌}
use pi_ghost.Wisp.FileSink.{
  FileCall, writes, removes, FileSink, new_sink, set_path, replace_oldest, snapshot_record,
}

-- The paths in the ring, the oldest first.
abbrev pub held : FileSink → List Text
held s = drop s.snapshot_head s.snapshot_paths ++ take s.snapshot_head s.snapshot_paths

-- The paths of the files that were removed, the first one first.
abbrev pub removed : List FileCall → List Text
removed [] = []
removed (writes path content ∷ calls) = removed calls
removed (removes path ∷ calls) = removed calls ++ path ∷ []

abbrev pub record_all : FileSink → List Text → FileSink
record_all s [] = s
record_all s (p ∷ ps) = record_all (snapshot_record s p) ps

-- The ring is full, or has not come round.
record IsRing (s : FileSink) : Type 0 where
  limited : 1 ≤ s.max_snapshots
  fits : length s.snapshot_paths ≤ s.max_snapshots
  inside : s.snapshot_head < s.max_snapshots
  young : length s.snapshot_paths < s.max_snapshots → s.snapshot_head ≡ 0
  kept_all : length s.snapshot_paths < s.max_snapshots → removed s.calls ≡ []

module _ (xs : List Text) (y p : Text) (zs : List Text) where
  take-middle : take (length xs) (xs ++ y ∷ zs) ≡ xs
  take-middle = take-append xs (y ∷ zs)

  drop-middle : drop (length xs) (xs ++ y ∷ zs) ≡ y ∷ zs
  drop-middle = drop-append xs (y ∷ zs)

get_or-middle :
    (xs : List Text) (y : Text) (zs : List Text) → get_or (xs ++ y ∷ zs) (length xs) [] ≡ y
get_or-middle [] y zs = refl
get_or-middle (x ∷ xs) y zs = get_or-middle xs y zs

set_path-middle :
    (xs : List Text) (y p : Text) (zs : List Text)
    → set_path (xs ++ y ∷ zs) (length xs) p ≡ xs ++ p ∷ zs
set_path-middle [] y p zs = refl
set_path-middle (x ∷ xs) y p zs = ap (◌∷◌ x) (set_path-middle xs y p zs)

length-set_path : (xs : List Text) (i : ℕ) (p : Text) → length (set_path xs i p) ≡ length xs
length-set_path [] i p = refl
length-set_path (x ∷ xs) zero p = refl
length-set_path (x ∷ xs) (suc i) p = ap suc (length-set_path xs i p)

-- A list around one of its places.
split_at :
    (i : ℕ) (ps : List Text)
    → i < length ps
    → (xs : List Text) × (y : Text) × (zs : List Text) × (ps ≡ xs ++ y ∷ zs) × (length xs ≡ i)
split_at i [] h = absurd (omega arith)
split_at zero (y ∷ ps) h = ([], y, ps, refl, refl)
split_at (suc i) (x ∷ ps) h =
    let (xs, y, zs, e, l) = split_at i ps (omega arith) in (x ∷ xs, y, zs, ap (◌∷◌ x) e, ap suc l)

abbrev held_of : ℕ → List Text → List Text
held_of h ps = drop h ps ++ take h ps

wraps : (n : ℕ) → 1 ≤ n → n % n ≡ 0
wraps n h = grind arith

stays : (k n : ℕ) → k < n → k % n ≡ k
stays k n h = grind arith

-- The path after the latest one takes the place of the oldest.
rotated :
    (xs : List Text) (y p : Text) (zs : List Text) (n : ℕ)
    → length (xs ++ y ∷ zs) ≡ n
    → y ∷ held_of ((length xs + 1) % n) (xs ++ p ∷ zs)
      ≡ held_of (length xs) (xs ++ y ∷ zs) ++ p ∷ []
rotated xs y p [] n h =
    rw
      (
        last_one,
        wraps n (omega (arith, h, length-append xs (y ∷ []))),
        drop-middle xs y p [],
        take-middle xs y p [],
        append-nil (xs ++ p ∷ []),
      )
      refl
  where
    last_one : length xs + 1 ≡ n
    last_one = omega (arith, h, length-append xs (y ∷ []))
rotated xs y p (z ∷ zs) n h =
    rw
      (
        stays (length xs + 1) n (omega (arith, h, length-append xs (y ∷ z ∷ zs))),
        drop-middle xs y p (z ∷ zs),
        take-middle xs y p (z ∷ zs),
      )
      (ap (◌∷◌ y) turned)
  where
    longer : length xs + 1 ≡ length (xs ++ p ∷ [])
    longer = omega (arith, length-append xs (p ∷ []))

    regrouped : xs ++ p ∷ z ∷ zs ≡ (xs ++ p ∷ []) ++ z ∷ zs
    regrouped = sym (append_assoc xs (p ∷ []) (z ∷ zs))

    turned : held_of (length xs + 1) (xs ++ p ∷ z ∷ zs) ≡ (z ∷ zs ++ xs) ++ p ∷ []
    turned =
        ap (λ k. held_of k (xs ++ p ∷ z ∷ zs)) longer
        ∙ ap (held_of (length (xs ++ p ∷ []))) regrouped
        ∙ ap (λ l. l ++ take (length (xs ++ p ∷ [])) ((xs ++ p ∷ []) ++ z ∷ zs))
            (drop-append (xs ++ p ∷ []) (z ∷ zs))
        ∙ ap (λ l. (z ∷ zs) ++ l) (take-append (xs ++ p ∷ []) (z ∷ zs))
        ∙ sym (append_assoc (z ∷ zs) xs (p ∷ []))

-- The same around an index.
oldest_first :
    (i : ℕ) (ps : List Text) (p : Text) (n : ℕ)
    → i < length ps
    → length ps ≡ n
    → get_or ps i [] ∷ held_of ((i + 1) % n) (set_path ps i p) ≡ held_of i ps ++ p ∷ []
oldest_first i ps p n h l =
    let (xs, y, zs, e, k) = split_at i ps h in
    rw (e, sym k, get_or-middle xs y zs, set_path-middle xs y p zs)
      (rotated xs y p zs n (sym (ap length e) ∙ l))

abbrev history : FileSink → List Text
history s = removed s.calls ++ held s

module _ (s : FileSink) (p : Text) (v : IsRing s) where
  replaced-history :
      length s.snapshot_paths ≡ s.max_snapshots → history (replace_oldest s p) ≡ history s ++ p ∷ []
  replaced-history l =
      append_assoc (removed s.calls) (get_or s.snapshot_paths s.snapshot_head [] ∷ []) _
      ∙ ap (◌++◌ (removed s.calls)) (
          oldest_first s.snapshot_head s.snapshot_paths p s.max_snapshots
            (omega (arith, v.inside, l)) l)
      ∙ sym (append_assoc (removed s.calls) (held s) (p ∷ []))

  added-history :
      s.snapshot_head ≡ 0
      → history (record s { snapshot_paths = s.snapshot_paths ++ p ∷ [] }) ≡ history s ++ p ∷ []
  added-history h =
      rw (h, append-nil (s.snapshot_paths ++ p ∷ []), append-nil s.snapshot_paths)
        (sym (append_assoc (removed s.calls) s.snapshot_paths (p ∷ [])))

  replaced-IsRing : length s.snapshot_paths ≡ s.max_snapshots → IsRing (replace_oldest s p)
  replaced-IsRing l = record {
    limited = v.limited;
    fits = omega (arith, v.fits, length-set_path s.snapshot_paths s.snapshot_head p);
    inside = in_range (s.snapshot_head + 1) s.max_snapshots v.limited;
    young = λ h. absurd (omega (arith, l, h, length-set_path s.snapshot_paths s.snapshot_head p));
    kept_all =
        λ h. absurd (omega (arith, l, h, length-set_path s.snapshot_paths s.snapshot_head p));
  }
    where
      in_range : (k n : ℕ) → 1 ≤ n → k % n < n
      in_range k n h = grind arith

  added-IsRing :
      length s.snapshot_paths < s.max_snapshots
      → IsRing (record s { snapshot_paths = s.snapshot_paths ++ p ∷ [] })
  added-IsRing l = record {
    limited = v.limited;
    fits = omega (arith, l, length-append s.snapshot_paths (p ∷ []));
    inside = v.inside;
    young = λ h. v.young l;
    kept_all = λ h. v.kept_all l;
  }

  snapshot_record-IsRing :
      IsRing (snapshot_record s p)
      × (history (snapshot_record s p) ≡ history s ++ p ∷ [])
      × ((snapshot_record s p).max_snapshots ≡ s.max_snapshots)
  snapshot_record-IsRing = elim (Bool-cases (length s.snapshot_paths == s.max_snapshots)) [
    | inl full ↦
        let l = (==_iff (length s.snapshot_paths) s.max_snapshots).0 full in
        rw (some_room, full) (replaced-IsRing l, replaced-history l, refl)
    | inr more ↦
        let l : length s.snapshot_paths < s.max_snapshots = ground (arith, v.fits) in
        rw (some_room, more) (added-IsRing l, added-history (v.young l), refl)
  ]
    where
      some_room : (s.max_snapshots == 0) ≡ false
      some_room = ground (arith, v.limited)

record_all-IsRing :
    (ps : List Text) (s : FileSink)
    → IsRing s
    → IsRing (record_all s ps)
      × (history (record_all s ps) ≡ history s ++ ps)
      × ((record_all s ps).max_snapshots ≡ s.max_snapshots)
record_all-IsRing [] s v = (v, sym (append-nil (history s)), refl)
record_all-IsRing (p ∷ ps) s v =
    let (w, e, m) = snapshot_record-IsRing s p v in
    let (w', e', m') = record_all-IsRing ps (snapshot_record s p) w in
    (w', e' ∙ ap (λ l. l ++ ps) e ∙ append_assoc (history s) (p ∷ []) ps, m' ∙ m)

new_sink-IsRing : (dir : Text) (interval max : ℕ) → 1 ≤ max → IsRing (new_sink dir interval max)
new_sink-IsRing dir interval max h = record {
  limited = h;
  fits = omega arith;
  inside = omega (arith, h);
  young = λ l. refl;
  kept_all = λ l. refl;
}

length-held :
    (s : FileSink)
    → s.snapshot_head ≤ length s.snapshot_paths
    → length (held s) ≡ length s.snapshot_paths
length-held s h = omega (
  arith,
  length-append (drop s.snapshot_head s.snapshot_paths) (take s.snapshot_head s.snapshot_paths),
  length-take s.snapshot_head s.snapshot_paths h,
  length-drop s.snapshot_head s.snapshot_paths,
  h,
)

IsRing-bound :
    (s : FileSink)
    → IsRing s
    → (length (held s) ≤ s.max_snapshots)
      × ((removed s.calls ≡ []) ⊎ (length (held s) ≡ s.max_snapshots))
IsRing-bound s v = elim (Bool-cases (ltb (length s.snapshot_paths) s.max_snapshots)) [
  | inl more ↦
      let l : length s.snapshot_paths < s.max_snapshots = ground arith in
      (omega (arith, l, length-held s (omega (arith, v.young l))), inl (v.kept_all l))
  | inr full ↦
      let l : length s.snapshot_paths ≡ s.max_snapshots = ground (arith, v.fits) in
      let k = length-held s (omega (arith, v.inside, l)) in (omega (arith, k, l), inr (k ∙ l))
]

-- Of the snapshots that were recorded, the sink has removed the files of the oldest ones and holds
-- the paths of all others, in their order: at most `max_snapshots`, and exactly as many if any file
-- was removed. The limit is at least 1.
pub record_all-latest :
    (dir : Text) (interval max : ℕ) (paths : List Text)
    → 1 ≤ max
    → (removed (record_all (new_sink dir interval max) paths).calls
          ++ held (record_all (new_sink dir interval max) paths)
        ≡ paths)
      × (length (held (record_all (new_sink dir interval max) paths)) ≤ max)
      × ((removed (record_all (new_sink dir interval max) paths).calls ≡ [])
          ⊎ (length (held (record_all (new_sink dir interval max) paths)) ≡ max))
record_all-latest dir interval max paths h =
    let (v, e, m) =
      record_all-IsRing paths (new_sink dir interval max) (new_sink-IsRing dir interval max h) in
    let (l, r) = IsRing-bound (record_all (new_sink dir interval max) paths) v in
    (e, omega (arith, l, m), elim r [ inl none_yet ↦ inl none_yet | inr full ↦ inr (full ∙ m) ])
