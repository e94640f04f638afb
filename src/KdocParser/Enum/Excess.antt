-- ===== src/KdocParser/Enum/Excess.antt =====
-- The warnings about descriptions of what is no member of an enum.
use pi_ghost.Base.{
  ℕ, ◌≡◌, sym, ◌∙◌, List, [], ◌∷◌, ◌++◌, Text, if◌then◌else◌, Dict, append_assoc, append-nil,
  Bool-cases, inl, inr,
}
use pi_ghost.KdocParser.Entry.{KernelEntry, Message, emit_msg}
use pi_ghost.KdocParser.Export.{is_member}
use pi_ghost.KdocParser.Enum.{excess, warn_excess}

-- A message for each described name that is no member, in the order of the descriptions.
pub excess_messages : ℕ → Text → List Text → Dict Text → List Message
excess_messages ln title members [] = []
excess_messages ln title members ((k, w) ∷ descs) =
    let rest = excess_messages ln title members descs in
    if is_member k members then rest else record { line = ln; text = excess k title } ∷ rest

-- `dump_enum` adds a warning for each described name that is no member of the enum, in the order of
-- the descriptions, and no other.
pub warn_excess-messages :
    (ln : ℕ) (title : Text) (members : List Text) (descs : Dict Text) (e : KernelEntry)
    → (warn_excess ln title members descs e).warnings
      ≡ e.warnings ++ excess_messages ln title members descs
unfolding warn_excess excess_messages emit_msg
warn_excess-messages ln title members [] e = sym (append-nil e.warnings)
warn_excess-messages ln title members ((k, w) ∷ descs) e = elim (Bool-cases (is_member k members)) [
  | inl t ↦ rw (t, warn_excess, excess_messages) (warn_excess-messages ln title members descs e)
  | inr f ↦
      rw (f, warn_excess, excess_messages)
        (warn_excess-messages ln title members descs (emit_msg ln (excess k title) e)
          ∙ append_assoc e.warnings (record { line = ln; text = excess k title } ∷ [])
              (excess_messages ln title members descs))
]
