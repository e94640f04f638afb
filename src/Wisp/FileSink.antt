-- ===== src/Wisp/FileSink.antt =====
-- wisp/server/src/dataplane/fb_sink_file.c: the sink that writes frames to files. What a call does to
-- the directory is a list of calls, the latest first; whether a file could be written is an argument.
-- A buffer of pixels is a list of bytes, and snprintf has room for the paths.
pub mod Snapshots
pub mod Pixels
use pi_ghost.Base.{
  ℕ, zero, suc, ◌+◌, ◌-◌, ◌*◌, Bool, true, false, ◌&&◌, List, [], ◌∷◌, ◌++◌, if◌then◌else◌, ltb,
  ◌==◌, length, drop, get_or, Text, codes,
}
use Prim.Native.Nat.{◌%◌, ◌/◌, ◌^◌}

pub data FileCall : Type 0 where
  writes : (path : Text) → (content : List ℕ) → FileCall
  removes : (path : Text) → FileCall

-- `snapshot_paths` holds the entries in use, so `snapshot_count` is its length.
pub record FileSink : Type 0 where
  pub out_dir : Text
  pub snapshot_interval : ℕ
  pub max_snapshots : ℕ
  pub blit_count : ℕ
  pub snapshot_paths : List Text
  pub snapshot_head : ℕ
  pub calls : List FileCall

abbrev pub new_sink : Text → ℕ → ℕ → FileSink
new_sink dir interval max = record {
  out_dir = dir;
  snapshot_interval = interval;
  max_snapshots = max;
  blit_count = 0;
  snapshot_paths = [];
  snapshot_head = 0;
  calls = [];
}

-- The loop over x: the bytes of `n` pixels B, G, R, X, as R, G, B. There is none past the buffer.
abbrev pub row_of : ℕ → List ℕ → List ℕ
row_of zero src = []
row_of (suc n) (b ∷ g ∷ r ∷ x ∷ src) = r ∷ g ∷ b ∷ row_of n src
row_of (suc n) _ = []

-- The loop over y: a row of `width` pixels after the other.
abbrev pub rows_of : ℕ → ℕ → List ℕ → List ℕ
rows_of width zero src = []
rows_of width (suc n) src = row_of width src ++ rows_of width n (drop (width * 4) src)

-- A number in decimal, with at most `fuel` digits.
abbrev pub decimal_from : ℕ → ℕ → Text
decimal_from zero n = []
decimal_from (suc fuel) n =
    let more = decimal_from fuel (n / 10) in
    if ltb n 10 then (n + b'0') ∷ [] else more ++ (n % 10 + b'0') ∷ []

-- `%u` and `%llu`
abbrev pub decimal : ℕ → Text
decimal n = decimal_from 20 n

abbrev zeros : ℕ → Text
zeros zero = []
zeros (suc n) = b'0' ∷ zeros n

-- `%08llu`
abbrev pub padded : ℕ → Text
padded n = zeros (8 - length (decimal n)) ++ decimal n

abbrev pub ppm_header : ℕ → ℕ → Text
ppm_header width height =
    codes "P6\n" ++ decimal width ++ codes " " ++ decimal height ++ codes "\n255\n"

-- The content that write_ppm leaves in its file.
abbrev pub ppm : ℕ → ℕ → List ℕ → List ℕ
ppm width height pixels = ppm_header width height ++ rows_of width height pixels

abbrev pub call : FileCall → FileSink → FileSink
call c s = record s { calls = c ∷ s.calls }

abbrev pub set_path : List Text → ℕ → Text → List Text
set_path [] i p = []
set_path (q ∷ qs) zero p = p ∷ qs
set_path (q ∷ qs) (suc i) p = q ∷ set_path qs i p

-- The oldest path makes room.
abbrev pub replace_oldest : FileSink → Text → FileSink
replace_oldest s path = record s {
  snapshot_paths = set_path s.snapshot_paths s.snapshot_head path;
  snapshot_head = (s.snapshot_head + 1) % s.max_snapshots;
  calls = removes (get_or s.snapshot_paths s.snapshot_head []) ∷ s.calls;
}

abbrev pub snapshot_record : FileSink → Text → FileSink
snapshot_record s path =
    if s.max_snapshots == 0
    then s
    else if length s.snapshot_paths == s.max_snapshots
    then replace_oldest s path
    else record s { snapshot_paths = s.snapshot_paths ++ path ∷ [] }

abbrev pub latest_path : FileSink → Text
latest_path s = s.out_dir ++ codes "/latest.ppm"

abbrev pub snapshot_path : FileSink → ℕ → Text
snapshot_path s frame_id = s.out_dir ++ codes "/frame_" ++ padded frame_id ++ codes ".ppm"

abbrev pub is_due : FileSink → Bool
is_due s = ltb 0 s.snapshot_interval && (s.blit_count % s.snapshot_interval == 0)

abbrev pub write_snapshot : Bool → ℕ → List ℕ → FileSink → FileSink
write_snapshot false frame_id content s = s
write_snapshot true frame_id content s =
    snapshot_record (call (writes (snapshot_path s frame_id) content) s) (snapshot_path s frame_id)

abbrev pub counted : FileSink → FileSink
counted s = record s { blit_count = (s.blit_count + 1) % 2 ^ 64 }

-- The first result is whether it returns 0. `latest` and `snapshot` are the results of write_ppm; a
-- file that it could not write whole is left out.
abbrev pub file_blit : Bool → Bool → ℕ → ℕ → List ℕ → ℕ → FileSink → Bool × FileSink
file_blit false snapshot width height pixels frame_id s = (false, s)
file_blit true snapshot width height pixels frame_id s =
    let content = ppm width height pixels in
    let s' = counted (call (writes (latest_path s) content) s) in
    (true, if is_due s' then write_snapshot snapshot frame_id content s' else s')
