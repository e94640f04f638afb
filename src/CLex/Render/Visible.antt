-- ===== src/CLex/Render/Visible.antt =====
-- `__str__` of tokens that nothing hides.
use pi_ghost.Base.{
  ◌≡◌, ◌≢◌, refl, ap, ◌∙◌, Bool, true, false, not, ◌&&◌, if◌then◌else◌, List, [], ◌∷◌, ◌++◌, Text,
}
use pi_ghost.CLex.Token.{Kind, comment, begin, end, CToken}
use pi_ghost.CLex.Tokenizer.Lossless.{text_of}
use pi_ghost.CLex.Render.{
  Shown, pop_shown, push_shown, dropped, shown_text, render_token, render_from, render, all_shown,
}

-- Every level of the stack is shown.
abbrev pub AllTrue : List Bool → Type 0
AllTrue [] = Unit
AllTrue (b ∷ bs) = (b ≡ true) × AllTrue bs

abbrev pub IsShown : Shown → Type 0
IsShown s = (s.top ≡ true) × AllTrue s.below

-- No comment, and nothing that the cleanups before a ";" drop.
abbrev pub Kept : List CToken → Type 0
Kept [] = Unit
Kept (t ∷ ts) = (t.kind ≢ comment) × (dropped t.kind ts ≡ false) × Kept ts

pop-IsShown : (s : Shown) → IsShown s → IsShown (pop_shown s)
pop-IsShown s h = by_below s.below h.1
  where
    by_below :
        (bs : List Bool)
        → AllTrue bs
        → IsShown (elim bs [ [] ↦ s | b ∷ cs ↦ record { top = b; below = cs } ])
    by_below [] k = h
    by_below (b ∷ bs) k = k

unhidden : (b d : Bool) (v w : Text) → b ≡ true → (if not b && d then v else w) ≡ w
unhidden b d v w e = rw e

render_token-Kept :
    (s : Shown) (t : CToken) (ts : List CToken)
    → IsShown s
    → t.kind ≢ comment
    → dropped t.kind ts ≡ false
    → ((render_token t.kind s t ts).0 ≡ t.value) × IsShown (render_token t.kind s t ts).1
unfolding render_token
render_token-Kept s t ts h k d = by_kind t.kind k
  where
    shown : (s : Shown) → IsShown s → shown_text s t ts ≡ t.value
    shown s h = rw h.0 (rw d)

    by_kind :
        (k : Kind)
        → k ≢ comment
        → ((render_token k s t ts).0 ≡ t.value) × IsShown (render_token k s t ts).1
    by_kind begin k = (shown (push_shown s) (h.0, (h.0, h.1)), (h.0, (h.0, h.1)))
    by_kind end k = (
      unhidden s.top (pop_shown s).top _ _ h.0 ∙ shown (pop_shown s) (pop-IsShown s h),
      pop-IsShown s h,
    )
    by_kind comment k = absurd (k refl)
    by_kind _ k = (shown s h, h)

render_from-Kept :
    (ts : List CToken) (s : Shown) → IsShown s → Kept ts → render_from s ts ≡ text_of ts
unfolding render_from
render_from-Kept [] s h k = refl
render_from-Kept (t ∷ ts) s h k =
    let (same, still) = render_token-Kept s t ts h k.0 k.1 in
    ap (λ w. w ++ render_from (render_token t.kind s t ts).1 ts) same
    ∙ ap (◌++◌ t.value) (render_from-Kept ts _ still k.2)

-- Without comments, and without a space or another ";" before a ";", `str` gives the text of the
-- tokens.
pub render-Kept : (ts : List CToken) → Kept ts → render ts ≡ text_of ts
unfolding render
render-Kept ts k = render_from-Kept ts all_shown (refl, tt) k
