-- ===== src/QrCode/Bitmap/Parts.antt =====
-- What stands where in the parts of a file of QrCode::save_as_bmp (src/qr_code.cpp).
use rin_windows.Base.{
  ℕ, zero, suc, ◌+◌, ◌-◌, ◌*◌, ◌≤◌, ◌<◌, ◌≡◌, refl, ap, ◌∙◌, some, List, [], length, get_elem?,
  get-append_left, get-append_right, get-take, get-drop, take, drop, replicate, length-append,
  length-take, length-drop, length-replicate, ℕ_discrete, arith,
}
use rin_windows.QrCode.Bitmap.{row_padded, bmp_header, bmp_palette, bmp_row, bmp_rows}

pub get-header :
    (w h : ℕ) (rest : List ℕ) (i j : ℕ)
    → i ≡ 54 + j
    → get_elem? (bmp_header w h rest) i ≡ get_elem? rest j
unfolding bmp_header
get-header w h rest i j e = get-append_right (bmp_header w h []) rest i j e

pub get-palette :
    (n k i : ℕ) (rest : List ℕ) (j : ℕ)
    → j ≡ 4 * k
    → k < n
    → get_elem? (bmp_palette n i rest) j ≡ some (i + k)
unfolding bmp_palette
get-palette zero k i rest j e h = absurd (omega arith)
get-palette (suc n) zero i rest j e h = rw e (ap some (omega arith))
get-palette (suc n) (suc k) i rest j e h =
    let e' : j ≡ suc (suc (suc (suc (4 * k)))) = omega arith in
    rw e' (get-palette n k (i + 1) rest (4 * k) refl (omega arith) ∙ ap some (omega arith))

pub get-palette_past :
    (n i : ℕ) (rest : List ℕ) (j k : ℕ)
    → j ≡ 4 * n + k
    → get_elem? (bmp_palette n i rest) j ≡ get_elem? rest k
unfolding bmp_palette
get-palette_past zero i rest j k e = ap (get_elem? rest) (omega arith)
get-palette_past (suc n) i rest j k e =
    let e' : j ≡ suc (suc (suc (suc (4 * n + k)))) = omega arith in
    rw e' (get-palette_past n (i + 1) rest (4 * n + k) k refl)

pub length-palette : (n i : ℕ) (rest : List ℕ) → length (bmp_palette n i rest) ≡ 4 * n + length rest
unfolding bmp_palette
length-palette zero i rest = omega arith
length-palette (suc n) i rest = omega (arith, length-palette n (i + 1) rest)

row_fits : (w h y : ℕ) → y < h → (y + 1) * w ≤ h * w
row_fits w h y less = grind arith

pub length-row :
    (w h : ℕ) (gray : List ℕ) (y : ℕ)
    → h * w ≤ length gray
    → y < h
    → length (bmp_row w gray y) ≡ row_padded w
unfolding bmp_row
length-row w h gray y size less = omega (
  arith,
  row_fits w h y less,
  length-append (take w (drop (y * w) gray)) (replicate (row_padded w - w) 255),
  length-take w (drop (y * w) gray),
  length-drop (y * w) gray,
  length-replicate {A = ℕ} (row_padded w - w) 255,
)

pub length-rows :
    (w : ℕ) (gray : List ℕ) (h : ℕ)
    → h * w ≤ length gray
    → length (bmp_rows w gray h) ≡ row_padded w * h
unfolding bmp_rows
length-rows w gray zero size = omega arith
length-rows w gray (suc h) size =
    length-append (bmp_row w gray h) (bmp_rows w gray h)
    ∙ (let first = length-row w (suc h) gray h size (omega arith) in
        let rest = length-rows w gray h (grind arith) in grind arith)

pub get-rows :
    (w : ℕ) (gray : List ℕ) (h x y : ℕ)
    → h * w ≤ length gray
    → x < w
    → y < h
    → get_elem? (bmp_rows w gray h) ((h - 1 - y) * row_padded w + x) ≡ get_elem? gray (y * w + x)
unfolding bmp_rows
get-rows w gray zero x y size hx hy = absurd (omega arith)
get-rows w gray (suc h) x y size hx hy = elim (ℕ_discrete y h) [
  | yes last ↦
      let top : (suc h - 1 - y) * row_padded w + x ≡ x = rw last (grind arith) in
      rw top (
        rw last (
          get-append_left (bmp_row w gray h) _ x
            (omega (arith, length-row w (suc h) gray h size (omega arith)))
          ∙ first))
  | no above ↦
      get-append_right (bmp_row w gray h) _ _ ((h - 1 - y) * row_padded w + x) (
        let size' = length-row w (suc h) gray h size (omega arith) in
        let down : suc h - 1 - y ≡ suc (h - 1 - y) = omega arith in rw (down, size') (grind arith))
      ∙ get-rows w gray h x y (grind arith) hx (omega arith)
]
  where
    first : get_elem? (bmp_row w gray h) x ≡ get_elem? gray (h * w + x)
    first =
        unfold bmp_row in
        (get-append_left (take w (drop (h * w) gray)) _ x (
            omega (
              arith,
              length-take w (drop (h * w) gray),
              length-drop (h * w) gray,
              row_fits w (suc h) h (omega arith),
            ))
          ∙ get-take w (drop (h * w) gray) x hx
          ∙ get-drop (h * w) gray (h * w + x) x refl)
