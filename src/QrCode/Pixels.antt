-- ===== src/QrCode/Pixels.antt =====
-- The picture that QrCode::render_grayscale (src/qr_code.cpp) makes, pixel by pixel.
use rin_windows.Base.{
  lt→ltb, ℕ, ◌+◌, ◌*◌, ◌^◌, ◌≤◌, ◌<◌, ◌≡◌, refl, ◌∙◌, ℤ, true, false, ◌⊎◌, Option, some, length,
  get_elem?, replicate, length-replicate, ok, arith, if◌then◌else◌,
}
use rin_windows.QrCode.{QrImage, at_least, Picture, render, render_grayscale}
use rin_windows.QrCode.Grid.{covers, is_black}
use rin_windows.QrCode.Paints.{get-replicate}
use rin_windows.QrCode.Marks.{paint_rows-Paints, in_rows_lem, in_rows_outside}

-- The colour of a module: black or white.
abbrev pub shade : Option ℕ → ℕ
shade o = if is_black o then 0 else 255

-- A picture of a symbol: every pixel in the square of a module has the module's colour, and every
-- other pixel, which is one of the border, is white.
pub record Shows (qr : QrImage) (scale border : ℕ) (p : Picture) : Type 0 where
  pub width_lem : p.width ≡ (qr.module_count + 2 * border) * scale
  pub height_lem : p.height ≡ p.width
  pub size : length p.pixels ≡ p.width * p.height
  pub inside :
      (column row dx dy : ℕ)
      → column < qr.module_count
      → row < qr.module_count
      → dx < scale
      → dy < scale
      → get_elem? p.pixels
          (((row + border) * scale + dy) * p.width + ((column + border) * scale + dx))
        ≡ some (shade (get_elem? qr.modules (row * qr.module_count + column)))
  pub outside :
      (x y : ℕ)
      → x < p.width
      → y < p.height
      → (x < border * scale)
        ⊎ (y < border * scale)
        ⊎ ((border + qr.module_count) * scale ≤ x)
        ⊎ ((border + qr.module_count) * scale ≤ y)
      → get_elem? p.pixels (y * p.width + x) ≡ some 255

row_fits : (w y : ℕ) → y < w → (y + 1) * w ≤ w * w
row_fits w y h = grind arith

module _ (qr : QrImage) (scale border : ℕ)
    (full : length qr.modules ≡ qr.module_count * qr.module_count)
    (fits : (qr.module_count + 2 * border) * scale < 2 ^ 31) where
  open qr use {module_count, modules}

  abbrev side : ℕ
  side = (module_count + 2 * border) * scale

  place : (k d : ℕ) → k < module_count → d < scale → (k + border) * scale + d < side
  place k d hk hd =
      let far : (k + 1 + border) * scale ≤ side = grind arith in
      let step : (k + 1 + border) * scale ≡ (k + border) * scale + scale = grind arith in
      omega arith

  covers_place :
      (column row dx dy : ℕ)
      → dx < scale
      → dy < scale
      → covers qr scale border side column row
          ((column + border) * scale + dx)
          ((row + border) * scale + dy)
        ≡ true
  covers_place column row dx dy hx hy = ground arith

  covers_border :
      (x y : ℕ)
      → (x < border * scale)
        ⊎ (y < border * scale)
        ⊎ ((border + module_count) * scale ≤ x)
        ⊎ ((border + module_count) * scale ≤ y)
      → (c r : ℕ) → c < module_count
      → r < module_count
      → covers qr scale border side c r x y ≡ false
  covers_border x y out c r hc hr = ground (arith, ends c hc, ends r hr)
    where
      ends :
          (k : ℕ)
          → k < module_count
          → (border * scale ≤ (k + border) * scale)
            × ((k + border) * scale + scale ≤ (border + module_count) * scale)
      ends k h =
          let low : border * scale ≤ (k + border) * scale = grind arith in
          let far : (k + 1 + border) * scale ≤ (border + module_count) * scale = grind arith in
          let step : (k + 1 + border) * scale ≡ (k + border) * scale + scale = grind arith in
          (low, omega arith)

  white :
      (x y : ℕ)
      → x < side
      → y < side
      → get_elem? {A = ℕ} (replicate (side * side) 255) (y * side + x) ≡ some 255
  white x y hx hy =
      let far : (y + 1) * side ≤ side * side = row_fits side y hy in
      get-replicate (side * side) 255 (y * side + x) (omega arith)

  render-Shows : (p : Picture) × (render qr scale border ≡ some p) × Shows qr scale border p
  unfolding render
  render-Shows =
      let (new, e, size, looks) =
        paint_rows-Paints qr scale border side full refl module_count 0
          (replicate (side * side) 255) (length-replicate {A = ℕ} (side * side) 255)
          (omega arith) in
      (
        record { width = side; height = side; pixels = new },
        rw (lt→ltb side (2 ^ 31) fits, e) refl,
        record {
          width_lem = refl;
          height_lem = refl;
          size = size;
          inside = λ column row dx dy hc hr hx hy.
              looks ((column + border) * scale + dx) ((row + border) * scale + dy)
                (place column dx hc hx) (place row dy hr hy)
              ∙ rw
                  (
                    in_rows_lem qr scale border side full refl column row _ _
                        (covers_place column row dx dy hx hy) module_count 0 hc,
                    white _ _ (place column dx hc hx) (place row dy hr hy),
                  )
                  (ground (arith, hr));
          outside = λ x y hx hy out.
              looks x y hx hy
              ∙ rw
                  (in_rows_outside qr scale border side full refl x y (covers_border x y out)
                    module_count 0 (omega arith))
                  (white x y hx hy);
        },
      )

-- A symbol with all its modules is drawn for every scale and border, numbers below one and zero
-- standing for these, as long as the side of the picture fits an int: no access is outside a vector,
-- each module is a square of its colour, and all the rest is white.
pub render_grayscale-Shows :
    (qr : QrImage) (scale border : ℤ)
    → 0 < qr.module_count
    → length qr.modules ≡ qr.module_count * qr.module_count
    → (qr.module_count + 2 * at_least 0 border) * at_least 1 scale < 2 ^ 31
    → (p : Picture) × (render_grayscale qr scale border ≡ ok (some p))
      × Shows qr (at_least 1 scale) (at_least 0 border) p
unfolding render_grayscale
render_grayscale-Shows qr scale border some_modules full fits =
    let (p, e, shows) = render-Shows qr (at_least 1 scale) (at_least 0 border) full fits in
    (p, rw e (ground arith), shows)
