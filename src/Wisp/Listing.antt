-- ===== src/Wisp/Listing.antt =====
-- handle_list_query of control_plane.c: the snapshot of the sessions for the admin thread.
use pi_ghost.Base.{ℕ, suc, ◌+◌, ◌≤◌, ◌≡◌, refl, List, [], ◌∷◌, if◌then◌else◌, length, arith}
use pi_ghost.Wisp.Table.{Session}
use pi_ghost.Wisp.Control.{ControlPlane}
use pi_ghost.Wisp.Loop.{AdminClientInfo, info_of, list_from, handle_list_query}

-- One entry for each session in use, in the order of the slots.
abbrev pub infos : List Session → List AdminClientInfo
infos [] = []
infos (s ∷ ss) = let more = infos ss in if s.in_use then info_of s ∷ more else more

list_from-bound :
    (count : ℕ) (ss : List Session) → count ≤ 8 → count + length (list_from count ss) ≤ 8
list_from-bound count [] h = omega (arith, h)
list_from-bound count (s ∷ ss) h =
    ground (arith, list_from-bound (suc count) ss, list_from-bound count ss)

list_from-infos :
    (count : ℕ) (ss : List Session) → count + length ss ≤ 8 → list_from count ss ≡ infos ss
list_from-infos count [] h = refl
list_from-infos count (s ∷ ss) h =
    ground (arith, list_from-infos (suc count) ss, list_from-infos count ss)

-- For a table of at most eight slots, a LIST query answers with one entry for each session in use,
-- in the order of the slots, and no other; and it writes no more than the eight entries that there
-- is room for.
pub handle_list_query-infos :
    (cp : ControlPlane)
    → length cp.table.slots ≤ 8
    → (handle_list_query cp ≡ infos cp.table.slots) × (length (handle_list_query cp) ≤ 8)
handle_list_query-infos cp h = (
  list_from-infos 0 cp.table.slots (omega (arith, h)),
  omega (arith, list_from-bound 0 cp.table.slots),
)
