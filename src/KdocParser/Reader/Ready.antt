-- ===== src/KdocParser/Reader/Ready.antt =====
-- The invariant of the state machine: outside normal code, a section has begun.
use pi_ghost.Base.{◌≢◌}
use pi_ghost.CLex.Raised.{Result, ok, raised, unset_section}
use pi_ghost.KdocParser.Entry.{KernelEntry}
use pi_ghost.KdocParser.Doc.{State, KernelDoc}
use pi_ghost.KdocParser.Sections.Begun.{IsBegun, Begun}

-- In every state but two, a section has begun.
abbrev pub IsReady : State → KernelEntry → Type 0
IsReady State.normal e = Unit
IsReady State.name e = Unit
IsReady _ e = IsBegun e

abbrev pub Ready : Result KernelDoc → Type 0
Ready (ok d) = IsReady d.state d.entry
Ready (raised x) = x ≢ unset_section

pub Begun-IsReady : (st : State) (e : KernelEntry) → IsBegun e → IsReady st e
Begun-IsReady State.normal e h = tt
Begun-IsReady State.name e h = tt
Begun-IsReady State.declaration e h = h
Begun-IsReady State.body e h = h
Begun-IsReady State.special_section e h = h
Begun-IsReady State.proto e h = h
Begun-IsReady State.docblock e h = h
Begun-IsReady State.inline_name e h = h
Begun-IsReady State.inline_text e h = h

pub Begun-Ready : (m : Result KernelDoc) → Begun m → Ready m
Begun-Ready (ok d) h = Begun-IsReady d.state d.entry h
Begun-Ready (raised x) h = absurd h

-- No section was read that had not begun.
abbrev pub NotUnset {ℓ} : {A : Type ℓ} → Result A → Type 0
NotUnset (ok a) = Unit
NotUnset (raised x) = x ≢ unset_section
