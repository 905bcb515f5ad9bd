-- ===== src/QrCode/Grid.antt =====
-- Which pixels the loops of QrCode::render_grayscale (src/qr_code.cpp) blacken.
use rin_windows.Base.{
  ℕ, zero, suc, ◌+◌, ◌*◌, ◌≤◌, ◌<◌, ◌≡◌, ◌≢◌, refl, ap, ◌∙◌, Bool, true, false, ◌&&◌, ◌||◌, Option,
  none, some, List, length, get_elem?, arith, if◌then◌else◌,
}
use rin_windows.QrCode.{QrImage, paint_module, paint_dark}
use rin_windows.QrCode.Paints.{get-ne-none, Paints, none-Paints, bind-Paints, within, memset-Paints}

module _ (qr : QrImage) (scale border w : ℕ) where
  -- The square of a module.
  abbrev pub covers : ℕ → ℕ → ℕ → ℕ → Bool
  covers column row x y =
      within ((row + border) * scale) ((row + border) * scale + scale) y
      && within ((column + border) * scale) ((column + border) * scale + scale) x

  stripe : ℕ → ℕ → ℕ → ℕ → ℕ → ℕ → Bool
  stripe zero dy px0 py0 x y = false
  stripe (suc rounds) dy px0 py0 x y =
      (within (py0 + dy) (py0 + dy + 1) y && within px0 (px0 + scale) x)
      || stripe rounds (dy + 1) px0 py0 x y

  paint_module-Paints :
      (rounds dy px0 py0 : ℕ) (old : List ℕ)
      → length old ≡ w * w
      → py0 + dy + rounds ≤ w
      → px0 + scale ≤ w
      → Paints w
          (stripe rounds dy px0 py0)
          old
          (paint_module qr scale border w rounds dy px0 py0 old)
  unfolding paint_module stripe
  paint_module-Paints zero dy px0 py0 old size hy hx = none-Paints w old size
  paint_module-Paints (suc rounds) dy px0 py0 old size hy hx =
      bind-Paints w _ _ old _ _ (memset-Paints w (py0 + dy) px0 scale old size (omega arith) hx)
        λ mid size'. paint_module-Paints rounds (dy + 1) px0 py0 mid size' (omega arith) hx

  stripe_lem :
      (rounds dy px0 py0 x y : ℕ)
      → stripe rounds dy px0 py0 x y
        ≡ (within (py0 + dy) (py0 + dy + rounds) y && within px0 (px0 + scale) x)
  unfolding stripe
  stripe_lem zero dy px0 py0 x y = ground arith
  stripe_lem (suc rounds) dy px0 py0 x y = ground (arith, stripe_lem rounds (dy + 1) px0 py0 x y)

abbrev pub is_black : Option ℕ → Bool
is_black (some (suc k)) = true
is_black other = false

module _ (qr : QrImage) (scale border w : ℕ)
    (full : length qr.modules ≡ qr.module_count * qr.module_count)
    (wide : w ≡ (qr.module_count + 2 * border) * scale) where
  open qr use {module_count, modules}

  -- The module in a row and a column is dark.
  abbrev pub is_dark : ℕ → ℕ → Bool
  is_dark column row = is_black (get_elem? modules (row * module_count + column))

  edge : (k : ℕ) → k < module_count → (k + border) * scale + scale ≤ w
  edge k h =
      let inner : (k + 1 + border) * scale ≤ (module_count + 2 * border) * scale = grind arith in
      let step : (k + 1 + border) * scale ≡ (k + border) * scale + scale = grind arith in
      omega arith

  pub paint_dark-Paints :
      (column row : ℕ) (old : List ℕ)
      → length old ≡ w * w
      → column < module_count
      → row < module_count
      → Paints w
          (λ x y. is_dark column row && covers qr scale border w column row x y)
          old
          (paint_dark qr scale border w
            (get_elem? modules (row * module_count + column))
            column
            row
            old)
  unfolding paint_dark
  paint_dark-Paints column row old size hc hr =
      let last : (row + 1) * module_count ≤ module_count * module_count = grind arith in
      by_value _ (get-ne-none modules (row * module_count + column) (omega arith))
    where
      by_value :
          (o : Option ℕ)
          → o ≢ none
          → Paints w
              (λ x y. is_black o && covers qr scale border w column row x y)
              old
              (paint_dark qr scale border w o column row old)
      by_value none there = absurd (there refl)
      by_value (some zero) there = none-Paints w old size
      by_value (some (suc k)) there =
          let (new, e, size', looks) =
            paint_module-Paints qr scale border w scale 0 ((column + border) * scale)
              ((row + border) * scale) old size (omega (arith, edge row hr)) (edge column hc) in
          (
            new,
            e,
            size',
            λ x y hx hy.
                looks x y hx hy
                ∙ ap (λ (b : Bool). if b then some 0 else get_elem? old (y * w + x))
                    (stripe_lem qr scale border w scale 0 ((column + border) * scale)
                        ((row + border) * scale) x y
                      ∙ ground arith),
          )
