-- ===== src/CLex/Render.antt =====
-- `CTokenizer.__str__`.
pub mod Visible
pub mod Hidden
use pi_ghost.Base.{
  ℕ, ◌-◌, Bool, true, false, not, ◌&&◌, ◌||◌, List, [], ◌∷◌, ◌++◌, if◌then◌else◌, Text, codes,
  starts_with, length,
}
use pi_ghost.Regex.Class.{is_space}
use pi_ghost.Regex.Search.{sub}
use pi_ghost.CLex.Token.{Kind, comment, begin, end, space, endstmt, CToken}
use pi_ghost.CLex.Scanner.{re_comment_start}

-- `show_stack`, the last element first; the code keeps it non-empty.
pub record Shown : Type 0 where
  pub top : Bool
  pub below : List Bool

-- `show_stack.pop()`, if it has more than one element.
abbrev pub pop_shown : Shown → Shown
pop_shown s = elim s.below [ [] ↦ s | b ∷ bs ↦ record { top = b; below = bs } ]

abbrev pub push_shown : Shown → Shown
push_shown s = record { top = s.top; below = s.top ∷ s.below }

unfoldable pub tabs : List Bool → Text
tabs [] = []
tabs (b ∷ bs) = b'\t' ∷ tabs bs

-- `RE_COMMENT_START.sub("", tok.value)`
unfoldable pub comment_body : Text → Text
unfolding sub is_space
comment_body value = sub re_comment_start (λ m. []) value

abbrev pub is_private : Text → Bool
is_private value = starts_with (codes "private:") (comment_body value)

abbrev pub is_public : Text → Bool
is_public value = starts_with (codes "public:") (comment_body value)

-- What a comment makes of the top of the stack.
unfoldable pub after_comment : Text → Shown → Shown
unfolding comment_body
after_comment value s =
    if is_private value
    then record s { top = false }
    else if is_public value
    then record s { top = true }
    else s

-- The cleanups before ";": a space there, and a ";" that another one follows.
abbrev pub dropped : Kind → List CToken → Bool
dropped space (t ∷ ts) = elim t.kind [ endstmt ↦ true | _ ↦ false ]
dropped endstmt (t ∷ ts) = elim t.kind [ endstmt ↦ true | _ ↦ false ]
dropped _ _ = false

abbrev pub shown_text : Shown → CToken → List CToken → Text
shown_text s t later = if not s.top then [] else if dropped t.kind later then [] else t.value

-- The text that a token adds, and the stack behind it; `later` are the tokens that follow.
unfoldable pub render_token : Kind → Shown → CToken → List CToken → Text × Shown
unfolding tabs after_comment
render_token begin s t later = let s' = push_shown s in (shown_text s' t later, s')
render_token end s t later =
    let s' = pop_shown s in
    (if not s.top && s'.top then tabs s'.below ++ t.value else shown_text s' t later, s')
render_token comment s t later = ([], after_comment t.value s)
render_token _ s t later = (shown_text s t later, s)

unfoldable pub render_from : Shown → List CToken → Text
unfolding render_token
render_from s [] = []
render_from s (t ∷ ts) = let (w, s') = render_token t.kind s t ts in w ++ render_from s' ts

abbrev pub all_shown : Shown
all_shown = record { top = true; below = [] }

unfoldable pub render : List CToken → Text
unfolding render_from
render ts = render_from all_shown ts
