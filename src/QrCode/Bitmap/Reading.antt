-- ===== src/QrCode/Bitmap/Reading.antt =====
-- The file of QrCode::save_as_bmp (src/qr_code.cpp), read as the format of bitmaps says.
use rin_windows.Base.{
  ℕ, zero, suc, ◌+◌, ◌-◌, ◌*◌, ◌/◌, ◌%◌, ◌^◌, ◌≤◌, ◌<◌, ◌≡◌, refl, sym, subst, ap, ◌∙◌, Option,
  none, some, Option-cases, inl, inr, List, [], ◌∷◌, All, length, get_elem?, drop, length-append,
  arith,
}
use rin_windows.QrCode.{Picture}
use rin_windows.QrCode.Bitmap.{row_padded, bmp_header, bmp_palette, bmp_rows, bmp_bytes}
use rin_windows.QrCode.Bitmap.Parts.{
  get-header, get-palette, get-palette_past, length-palette, get-rows, length-rows,
}

abbrev u32_of : List ℕ → Option ℕ
u32_of (a ∷ b ∷ c ∷ d ∷ rest) = some (a + 256 * b + 65536 * c + 16777216 * d)
u32_of other = none

-- A number of four bytes, the low one first.
abbrev pub read_u32 : List ℕ → ℕ → Option ℕ
read_u32 file i = u32_of (drop i file)

infixl 5 ◌>>=◌
abbrev pub ◌>>=◌ : Option ℕ → (ℕ → Option ℕ) → Option ℕ
none >>= next = none
some n >>= next = next n

-- The length of a row of pixels of one byte, which is a number of four bytes.
abbrev pub stride : ℕ → ℕ
stride width = (8 * width + 31) / 32 * 4

-- The blue of the colour of a pixel, counted from the top left: the rows stand from the bottom up,
-- and a byte there is an index into the palette of four bytes a colour.
abbrev pub read_pixel : List ℕ → ℕ → ℕ → Option ℕ
read_pixel file x y = do
  offset ← read_u32 file 10
  width ← read_u32 file 18
  height ← read_u32 file 22
  index ← get_elem? file (offset + ((height - 1 - y) * stride width + x))
  get_elem? file (54 + 4 * index)

All-get : (P : ℕ → Type 0) (xs : List ℕ) (j : ℕ) {v : ℕ} → All P xs → get_elem? xs j ≡ some v → P v
All-get P [] j h e = absurd (cc)
All-get P (x ∷ xs) zero h e = let same : x ≡ _ = cc in subst P same h.0
All-get P (x ∷ xs) (suc j) h e = All-get P xs j h.1 e

u32_bytes :
    (v : ℕ)
    → v < 2 ^ 32
    → v % 256 + 256 * (v / 256 % 256) + 65536 * (v / 65536 % 256) + 16777216 * (v / 16777216 % 256)
      ≡ v
u32_bytes v h = omega arith

module _ (p : Picture) (size : length p.pixels ≡ p.width * p.height)
    (fits : 1078 + row_padded p.width * p.height < 2 ^ 32) where
  open p use {width, height, pixels}

  by_rows : height * width ≤ length pixels
  by_rows = grind arith

  abbrev rest : List ℕ
  rest = bmp_palette 256 0 (bmp_rows width pixels height)

  length-bmp : length (bmp_bytes p) ≡ 1078 + row_padded width * height
  unfolding bmp_bytes
  length-bmp =
      length-append (bmp_header width height []) rest
      ∙ omega (
        arith,
        header,
        length-palette 256 0 (bmp_rows width pixels height),
        length-rows width pixels height by_rows,
      )
    where
      header : length (bmp_header width height []) ≡ 54
      header = unfold bmp_header in refl

  read_size : read_u32 (bmp_bytes p) 2 ≡ some (1078 + row_padded width * height)
  unfolding bmp_bytes bmp_header
  read_size = ap some (u32_bytes _ (omega arith) ∙ omega arith)

  read_offset : read_u32 (bmp_bytes p) 10 ≡ some 1078
  unfolding bmp_bytes bmp_header
  read_offset = refl

  read_width : width < 2 ^ 32 → read_u32 (bmp_bytes p) 18 ≡ some width
  unfolding bmp_bytes bmp_header
  read_width h = ap some (u32_bytes width h)

  read_height : height < 2 ^ 32 → read_u32 (bmp_bytes p) 22 ≡ some height
  unfolding bmp_bytes bmp_header
  read_height h = ap some (u32_bytes height h)

  get-colour : (k : ℕ) → k < 256 → get_elem? (bmp_bytes p) (54 + 4 * k) ≡ some k
  unfolding bmp_bytes
  get-colour k h =
      get-header width height rest (54 + 4 * k) (4 * k) refl
      ∙ get-palette 256 k 0 _ (4 * k) refl h
      ∙ ap some (omega arith)

  get-index :
      (x y : ℕ)
      → x < width
      → y < height
      → get_elem? (bmp_bytes p) (1078 + ((height - 1 - y) * stride width + x))
        ≡ get_elem? pixels (y * width + x)
  unfolding bmp_bytes
  get-index x y hx hy =
      let same : stride width ≡ row_padded width = omega arith in
      rw same (
        get-header width height rest (1078 + ((height - 1 - y) * row_padded width + x))
          (1024 + ((height - 1 - y) * row_padded width + x)) (omega arith)
        ∙ get-palette_past 256 0 _ (1024 + ((height - 1 - y) * row_padded width + x))
            ((height - 1 - y) * row_padded width + x) (omega arith)
        ∙ get-rows width pixels height x y by_rows hx hy)

  -- A picture of bytes that is small enough for a file of 32-bit sizes is written to a file whose
  -- size stands in its header, and from which a reader of bitmaps gets each pixel back.
  pub bmp_bytes-Reads :
      All (λ v. v < 256) pixels
      → (read_u32 (bmp_bytes p) 2 ≡ some (length (bmp_bytes p)))
        × ((x y : ℕ)
            → x < width
            → y < height
            → read_pixel (bmp_bytes p) x y ≡ get_elem? pixels (y * width + x))
  bmp_bytes-Reads grey = (read_size ∙ ap some (sym length-bmp), pixel)
    where
      pixel :
          (x y : ℕ)
          → x < width
          → y < height
          → read_pixel (bmp_bytes p) x y ≡ get_elem? pixels (y * width + x)
      pixel x y hx hy =
          let tall : row_padded width ≤ row_padded width * height = grind arith in
          let high : height ≤ row_padded width * height = grind arith in
          rw (read_offset, read_width (omega arith), read_height (omega arith), get-index x y hx hy)
            (elim (Option-cases (get_elem? pixels (y * width + x))) [
              | inl e ↦ rw e refl
              | inr (v, e) ↦ rw e (get-colour v (All-get (λ v. v < 256) pixels _ grey e))
            ])
