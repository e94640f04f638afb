-- ===== src/KdocParser/Prototype/Chunks.antt =====
-- Where `process_proto_type` takes a declaration to end.
use pi_ghost.Base.{
  ℕ, suc, ◌≡◌, ◌≢◌, refl, sym, ap, ◌∙◌, Bool, true, false, List, [], ◌∷◌, ◌++◌, Text, codes,
  text_eq, text_eq_apart, is_nonpos, ◌&&◌, ℤ, pos, append_assoc, append-nil,
}
use pi_ghost.KdocParser.Prototype.{read_chunks}

abbrev pub IsPiece : Text → Type 0
IsPiece w = (w ≢ codes "{") × (w ≢ codes "}")

-- Pieces with their braces paired.
pub data Nested : List Text → Type 0 where
  done : Nested []
  piece : {w : Text} {ws : List Text} → IsPiece w → Nested ws → Nested (w ∷ ws)
  braces :
      (body ws : List Text)
      → Nested body
      → Nested ws
      → Nested (codes "{" ∷ (body ++ (codes "}" ∷ ws)))

-- Such pieces with no semicolon outside the braces.
pub data Open : List Text → Type 0 where
  none_left : Open []
  other : {w : Text} {ws : List Text} → IsPiece w → w ≢ codes ";" → Open ws → Open (w ∷ ws)
  block :
      (body ws : List Text) → Nested body → Open ws → Open (codes "{" ∷ (body ++ (codes "}" ∷ ws)))

abbrev pub concat : List Text → Text
concat [] = []
concat (w ∷ ws) = w ++ concat ws

read_piece :
    (w : Text) (ws : List Text) (p : Text) (n : ℤ)
    → IsPiece w
    → text_eq w (codes ";") && is_nonpos n ≡ false
    → read_chunks (w ∷ ws) p n ≡ read_chunks ws (p ++ w) n
unfolding read_chunks
read_piece [] ws p n h b = ap (λ q. read_chunks ws q n) (sym (append-nil p))
read_piece (c ∷ w) ws p n h b =
    rw (text_eq_apart (c ∷ w) (codes "{") h.0, text_eq_apart (c ∷ w) (codes "}") h.1, b) refl

deep : (b : Bool) → b && false ≡ false
deep true = refl
deep false = refl

concat-append : (us vs : List Text) → concat (us ++ vs) ≡ concat us ++ concat vs
concat-append [] vs = refl
concat-append (u ∷ us) vs =
    ap (λ w. u ++ w) (concat-append us vs) ∙ sym (append_assoc u (concat us) (concat vs))

-- Behind the closing brace, where the pieces between the braces are read as they are.
read_braces :
    (body rest : List Text) (p : Text) (n : ℕ)
    → ((more : List Text) (q : Text)
        → read_chunks (body ++ more) q (pos (suc n))
          ≡ read_chunks more (q ++ concat body) (pos (suc n)))
    → read_chunks (codes "{" ∷ (body ++ (codes "}" ∷ rest))) p (pos n)
      ≡ read_chunks rest (((p ++ codes "{") ++ concat body) ++ codes "}") (pos n)
unfolding read_chunks
read_braces body rest p n ih = ih (codes "}" ∷ rest) (p ++ codes "{")

-- The text of a block and what follows it, on the text before it.
block-concat :
    (p : Text) (body ws : List Text)
    → ((((p ++ codes "{") ++ concat body) ++ codes "}") ++ concat ws)
      ≡ p ++ concat (codes "{" ∷ (body ++ (codes "}" ∷ ws)))
block-concat p body ws =
    append_assoc ((p ++ codes "{") ++ concat body) (codes "}") (concat ws)
    ∙ append_assoc (p ++ codes "{") (concat body) (codes "}" ++ concat ws)
    ∙ append_assoc p (codes "{") (concat body ++ (codes "}" ++ concat ws))
    ∙ ap (λ w. p ++ (codes "{" ++ w)) (sym (concat-append body (codes "}" ∷ ws)))

-- Within braces, paired pieces only make the prototype longer.
read_chunks-Nested :
    {ws : List Text} (more : List Text) (p : Text) (n : ℕ)
    → Nested ws
    → read_chunks (ws ++ more) p (pos (suc n)) ≡ read_chunks more (p ++ concat ws) (pos (suc n))
unfolding read_chunks
read_chunks-Nested more p n done = ap (λ w. read_chunks more w (pos (suc n))) (sym (append-nil p))
read_chunks-Nested more p n (piece {w} {ws} h hs) =
    read_piece w (ws ++ more) p (pos (suc n)) h (deep _)
    ∙ read_chunks-Nested more (p ++ w) n hs
    ∙ ap (λ v. read_chunks more v (pos (suc n))) (append_assoc p w (concat ws))
read_chunks-Nested more p n (braces body ws hb hs) =
    ap (λ w. read_chunks (codes "{" ∷ w) p (pos (suc n))) (append_assoc body (codes "}" ∷ ws) more)
    ∙ read_braces body (ws ++ more) p (suc n) (λ more' q. read_chunks-Nested more' q (suc n) hb)
    ∙ read_chunks-Nested more _ n hs
    ∙ ap (λ v. read_chunks more v (pos (suc n))) (block-concat p body ws)

open_piece : (w : Text) (n : ℤ) → w ≢ codes ";" → text_eq w (codes ";") && is_nonpos n ≡ false
open_piece w n h = rw (text_eq_apart w (codes ";") h) refl

-- Outside all braces, a declaration ends at the first semicolon that no pair of braces is around,
-- whatever else its pieces are, empty ones, semicolons and nested blocks within its blocks included,
-- with the braces paired: the prototype is then all of it, and the count of braces is 0. What is
-- behind on the line is dropped.
pub read_chunks-declaration :
    {ws : List Text} (more : List Text) (p : Text)
    → Open ws
    → read_chunks (ws ++ (codes ";" ∷ more)) p (pos 0)
      ≡ ((p ++ concat ws) ++ codes ";", pos 0, true)
unfolding read_chunks
read_chunks-declaration more p none_left =
    ap (λ w. (w ++ codes ";", pos 0, true)) (sym (append-nil p))
read_chunks-declaration more p (other {w} {ws} h n hs) =
    read_piece w (ws ++ (codes ";" ∷ more)) p (pos 0) h (open_piece w (pos 0) n)
    ∙ read_chunks-declaration more (p ++ w) hs
    ∙ ap (λ v. (v ++ codes ";", pos 0, true)) (append_assoc p w (concat ws))
read_chunks-declaration more p (block body ws hb hs) =
    ap (λ w. read_chunks (codes "{" ∷ w) p (pos 0))
      (append_assoc body (codes "}" ∷ ws) (codes ";" ∷ more))
    ∙ read_braces body (ws ++ (codes ";" ∷ more)) p 0 (λ more' q. read_chunks-Nested more' q 0 hb)
    ∙ read_chunks-declaration more _ hs
    ∙ ap (λ v. (v ++ codes ";", pos 0, true)) (block-concat p body ws)
