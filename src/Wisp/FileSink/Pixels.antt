-- ===== src/Wisp/FileSink/Pixels.antt =====
-- write_ppm of fb_sink_file.c: where each pixel goes.
use native.Mathlib.Nat.{zero-add, suc-add}
use pi_ghost.Base.{
  ℕ, zero, suc, ◌+◌, ◌*◌, ◌≤◌, ◌<◌, ◌≡◌, refl, ap, sym, ◌∙◌, List, [], ◌∷◌, ◌++◌, arith, length,
  drop, get_or, length-append, length-drop, drop-append,
}
use pi_ghost.Wisp.FileSink.{row_of, rows_of, ppm_header, ppm}

-- Two rows in a buffer that holds both are one.
row_of-add :
    (n m : ℕ) (src : List ℕ)
    → 4 * n ≤ length src
    → row_of (n + m) src ≡ row_of n src ++ row_of m (drop (n * 4) src)
row_of-add zero m src h = ap (λ k. row_of k src) (zero-add m)
row_of-add (suc n) m (b ∷ g ∷ r ∷ x ∷ src) h =
    rw (suc-add, four_more) (ap (λ l. r ∷ g ∷ b ∷ l) (row_of-add n m src (omega (arith, h))))
  where
    four_more : suc n * 4 ≡ suc (suc (suc (suc (n * 4))))
    four_more = omega arith
row_of-add (suc n) m [] h = absurd (omega (arith, h))
row_of-add (suc n) m (b ∷ []) h = absurd (omega (arith, h))
row_of-add (suc n) m (b ∷ g ∷ []) h = absurd (omega (arith, h))
row_of-add (suc n) m (b ∷ g ∷ r ∷ []) h = absurd (omega (arith, h))

-- Row by row is pixel by pixel.
rows_of-eq-row_of :
    (width n : ℕ) (src : List ℕ)
    → 4 * (n * width) ≤ length src
    → rows_of width n src ≡ row_of (n * width) src
rows_of-eq-row_of width zero src h = ap (λ k. row_of k src) (sym (zero_rows width))
  where
    zero_rows : (w : ℕ) → 0 * w ≡ 0
    zero_rows w = omega arith
rows_of-eq-row_of width (suc n) src h =
    ap (◌++◌ (row_of width src)) (
      rows_of-eq-row_of width n (drop (width * 4) src)
        (omega (arith, l, length-drop (width * 4) src)))
    ∙ sym (row_of-add width (n * width) src (omega (arith, l)))
    ∙ ap (λ k. row_of k src) (sym one_more)
  where
    one_more : suc n * width ≡ width + n * width
    one_more = grind arith

    l : 4 * width + 4 * (n * width) ≤ length src
    l = omega (arith, h, one_more)

length-row_of : (n : ℕ) (src : List ℕ) → 4 * n ≤ length src → length (row_of n src) ≡ 3 * n
length-row_of zero src h = omega arith
length-row_of (suc n) (b ∷ g ∷ r ∷ x ∷ src) h =
    omega (arith, length-row_of n src (omega (arith, h)))
length-row_of (suc n) [] h = absurd (omega (arith, h))
length-row_of (suc n) (b ∷ []) h = absurd (omega (arith, h))
length-row_of (suc n) (b ∷ g ∷ []) h = absurd (omega (arith, h))
length-row_of (suc n) (b ∷ g ∷ r ∷ []) h = absurd (omega (arith, h))

-- The pixel at `i` of the file is the one at `j` of the buffer.
abbrev pub IsPixel : List ℕ → ℕ → List ℕ → ℕ → Type 0
IsPixel out i src j =
    (get_or out i 0 ≡ get_or src (j + 2) 0)
    × (get_or out (i + 1) 0 ≡ get_or src (j + 1) 0)
    × (get_or out (i + 2) 0 ≡ get_or src j 0)

shift_three : (k : ℕ) → 3 * suc k ≡ suc (suc (suc (3 * k)))
shift_three k = omega arith

shift_four : (k : ℕ) → 4 * suc k ≡ suc (suc (suc (suc (4 * k))))
shift_four k = omega arith

three_and : (i j : ℕ) → suc (suc (suc i)) + j ≡ suc (suc (suc (i + j)))
three_and i j = omega arith

four_and : (i j : ℕ) → suc (suc (suc (suc i))) + j ≡ suc (suc (suc (suc (i + j))))
four_and i j = omega arith

row_of-IsPixel :
    (n k : ℕ) (src : List ℕ)
    → k < n
    → 4 * n ≤ length src
    → IsPixel (row_of n src) (3 * k) src (4 * k)
row_of-IsPixel zero k src l h = absurd (omega (arith, l))
row_of-IsPixel (suc n) zero (b ∷ g ∷ r ∷ x ∷ src) l h = (refl, refl, refl)
row_of-IsPixel (suc n) (suc k) (b ∷ g ∷ r ∷ x ∷ src) l h =
    rw
      (
        shift_three k,
        shift_four k,
        three_and (3 * k) 1,
        three_and (3 * k) 2,
        four_and (4 * k) 1,
        four_and (4 * k) 2,
      )
      (row_of-IsPixel n k src (omega (arith, l)) (omega (arith, h)))
row_of-IsPixel (suc n) k [] l h = absurd (omega (arith, h))
row_of-IsPixel (suc n) k (b ∷ []) l h = absurd (omega (arith, h))
row_of-IsPixel (suc n) k (b ∷ g ∷ []) l h = absurd (omega (arith, h))
row_of-IsPixel (suc n) k (b ∷ g ∷ r ∷ []) l h = absurd (omega (arith, h))

get_or-behind : (xs ys : List ℕ) (i : ℕ) → get_or (xs ++ ys) (length xs + i) 0 ≡ get_or ys i 0
get_or-behind [] ys i = ap (λ k. get_or ys k 0) (zero-add i)
get_or-behind (x ∷ xs) ys i = rw suc-add (get_or-behind xs ys i)

-- The pixel in column `x` of row `y`, which the buffer holds as B, G, R and one more byte, is in the
-- file as R, G, B at its place in the order of the rows, behind the header; and the file has nothing
-- else. The buffer holds all pixels.
pub ppm-IsPixel :
    (width height x y : ℕ) (pixels : List ℕ)
    → x < width
    → y < height
    → 4 * (height * width) ≤ length pixels
    → IsPixel
        (drop (length (ppm_header width height)) (ppm width height pixels))
        (3 * (y * width + x))
        pixels
        (4 * (y * width + x))
      × (length (ppm width height pixels) ≡ length (ppm_header width height) + 3 * (height * width))
ppm-IsPixel width height x y pixels hx hy h = (
  rw (drop-append (ppm_header width height) (rows_of width height pixels), e)
      (row_of-IsPixel (height * width) (y * width + x) pixels within h),
  length-append (ppm_header width height) (rows_of width height pixels)
      ∙ ap (λ l. length (ppm_header width height) + length l) e
      ∙ ap (◌+◌ (length (ppm_header width height))) (length-row_of (height * width) pixels h),
)
  where
    e : rows_of width height pixels ≡ row_of (height * width) pixels
    e = rows_of-eq-row_of width height pixels h

    within : y * width + x < height * width
    within = grind (arith, hx, hy)
