-- ===== src/Wisp/Dmabuf.antt =====
-- wisp/server/src/shm/server_shm.c: the announced GPU buffers of a client. The descriptors to
-- close come back as a list, in the order of the calls of close.
use pi_ghost.Base.{
  ℕ, Bool, true, false, ◌&&◌, ◌||◌, not, List, [], ◌∷◌, Option, none, some, if◌then◌else◌, ltb,
  ◌==◌, length, take,
}
use pi_ghost.Wisp.Types.{num_buffers}

pub record DmabufDesc : Type 0 where
  pub width : ℕ
  pub height : ℕ
  pub fourcc : ℕ
  pub stride : ℕ
  pub offset : ℕ
  pub modifier : ℕ

pub record DmabufSet : Type 0 where
  pub fds : List (Option ℕ)
  pub desc : List DmabufDesc
  pub valid : Bool

pub record DmabufAnnounceMsg : Type 0 where
  pub nbufs : ℕ
  pub desc : List DmabufDesc

-- Every descriptor is -1.
abbrev pub no_fds : List (Option ℕ)
no_fds = none ∷ none ∷ none ∷ []

-- The set as memset leaves it.
abbrev pub zero_dmabuf_set : DmabufSet
zero_dmabuf_set = record { fds = some 0 ∷ some 0 ∷ some 0 ∷ []; desc = []; valid = false }

abbrev pub close_fds : List (Option ℕ) → List ℕ
close_fds [] = []
close_fds (none ∷ fds) = close_fds fds
close_fds (some fd ∷ fds) = fd ∷ close_fds fds

-- The condition on one buffer and its descriptor, with the comparison of the stride, in bytes, to
-- the width, in pixels.
abbrev malformed : Option ℕ → DmabufDesc → Bool
malformed none d = true
malformed (some fd) d = d.width == 0 || d.height == 0 || d.stride == 0 || ltb d.stride d.width

abbrev pub any_malformed : List (Option ℕ) → List DmabufDesc → Bool
any_malformed (fd ∷ fds) (d ∷ ds) = malformed fd d || any_malformed fds ds
any_malformed fds ds = false

-- The set, or `none` for -1; and the descriptors that were closed.
abbrev pub set_from_announce : DmabufAnnounceMsg → List (Option ℕ) → Option DmabufSet × List ℕ
set_from_announce msg fds =
    if not (msg.nbufs == num_buffers && length fds == num_buffers)
    then (none, close_fds (take num_buffers fds))
    else if any_malformed fds msg.desc
    then (none, close_fds fds)
    else (some (record { fds = fds; desc = msg.desc; valid = true }), [])

abbrev pub set_close : DmabufSet → DmabufSet × List ℕ
set_close s = (record s { fds = no_fds; valid = false }, close_fds s.fds)
