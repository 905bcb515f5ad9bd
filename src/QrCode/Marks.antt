-- ===== src/QrCode/Marks.antt =====
-- Which modules the loops of QrCode::render_grayscale (src/qr_code.cpp) paint at a place.
use rin_windows.Base.{
  ℕ, zero, suc, ◌+◌, ◌*◌, ◌≤◌, ◌<◌, ◌==◌, ◌≡◌, ◌≢◌, refl, Bool, Bool-cases, true, false, ◌&&◌, ◌||◌,
  ◌⊎◌, inl, inr, List, length, dec_lt, ℕ_discrete, arith,
}
use rin_windows.QrCode.{QrImage, paint_columns, paint_rows}
use rin_windows.QrCode.Grid.{covers, is_dark, paint_dark-Paints}
use rin_windows.QrCode.Paints.{Paints, none-Paints, bind-Paints, within}

module _ (qr : QrImage) (scale border w : ℕ)
    (full : length qr.modules ≡ qr.module_count * qr.module_count)
    (wide : w ≡ (qr.module_count + 2 * border) * scale) where
  open qr use {module_count, modules}

  abbrev marks : ℕ → ℕ → ℕ → ℕ → Bool
  marks column row x y =
      is_dark qr scale border w full wide column row && covers qr scale border w column row x y

  in_columns : ℕ → ℕ → ℕ → ℕ → ℕ → Bool
  in_columns zero column row x y = false
  in_columns (suc rounds) column row x y =
      marks column row x y || in_columns rounds (column + 1) row x y

  pub in_rows : ℕ → ℕ → ℕ → ℕ → Bool
  unfolding in_columns
  in_rows zero row x y = false
  in_rows (suc rounds) row x y = in_columns module_count 0 row x y || in_rows rounds (row + 1) x y

  paint_columns-Paints :
      (rounds column row : ℕ) (old : List ℕ)
      → length old ≡ w * w
      → column + rounds ≤ module_count
      → row < module_count
      → Paints w
          (in_columns rounds column row)
          old
          (paint_columns qr scale border w rounds column row old)
  unfolding paint_columns in_columns
  paint_columns-Paints zero column row old size hc hr = none-Paints w old size
  paint_columns-Paints (suc rounds) column row old size hc hr =
      bind-Paints w _ _ old _ _
        (paint_dark-Paints qr scale border w full wide column row old size (omega arith) hr)
        λ mid size'. paint_columns-Paints rounds (column + 1) row mid size' (omega arith) hr

  pub paint_rows-Paints :
      (rounds row : ℕ) (old : List ℕ)
      → length old ≡ w * w
      → row + rounds ≤ module_count
      → Paints w (in_rows rounds row) old (paint_rows qr scale border w rounds row old)
  unfolding paint_rows in_rows
  paint_rows-Paints zero row old size hr = none-Paints w old size
  paint_rows-Paints (suc rounds) row old size hr =
      bind-Paints w _ _ old _ _
        (paint_columns-Paints module_count 0 row old size (omega arith) (omega arith))
        λ mid size'. paint_rows-Paints rounds (row + 1) mid size' (omega arith)

  -- Squares of different modules have no place in common.
  module _ (column row x y : ℕ) (here : covers qr scale border w column row x y ≡ true) where
    covers-same : (c r : ℕ) → covers qr scale border w c r x y ≡ true → (c ≡ column) × (r ≡ row)
    covers-same c r h = (
      apart c column x (ground arith) (ground arith),
      apart r row y (ground arith) (ground arith),
    )
      where
        apart :
            (a b z : ℕ)
            → ((a + border) * scale ≤ z) × (z < (a + border) * scale + scale)
            → ((b + border) * scale ≤ z) × (z < (b + border) * scale + scale)
            → a ≡ b
        apart a b z (l, h) (l', h') = elim (dec_lt a b) [
          | yes less ↦
              let far : (a + 1 + border) * scale ≤ (b + border) * scale = grind arith in
              let step : (a + 1 + border) * scale ≡ (a + border) * scale + scale = grind arith in
              absurd (omega arith)
          | no rest ↦ elim (dec_lt b a) [
            | yes more ↦
                let far : (b + 1 + border) * scale ≤ (a + border) * scale = grind arith in
                let step : (b + 1 + border) * scale ≡ (b + border) * scale + scale = grind arith in
                absurd (omega arith)
            | no same ↦ omega arith
          ]
        ]

    marks_here : marks column row x y ≡ is_dark qr scale border w full wide column row
    marks_here = rw here (ground arith)

    marks_elsewhere : (c r : ℕ) → (c ≢ column) ⊎ (r ≢ row) → marks c r x y ≡ false
    marks_elsewhere c r other = elim (Bool-cases (covers qr scale border w c r x y)) [
      | inl h ↦ let same = covers-same c r h in absurd (ground (arith, same))
      | inr h ↦ rw h (ground arith)
    ]

    in_columns_lem :
        (rounds c r : ℕ)
        → in_columns rounds c r x y ≡ (
            (within c (c + rounds) column && r == row)
            && is_dark qr scale border w full wide column row)
    unfolding in_columns
    in_columns_lem zero c r = ground arith
    in_columns_lem (suc rounds) c r = elim (ℕ_discrete c column) [
      | yes e ↦ elim (ℕ_discrete r row) [
        | yes f ↦ rw (e, f, marks_here) (ground (arith, in_columns_lem rounds (column + 1) row))
        | no f ↦ rw (marks_elsewhere c r (inr f)) (ground (arith, in_columns_lem rounds (c + 1) r))
      ]
      | no e ↦ rw (marks_elsewhere c r (inl e)) (ground (arith, in_columns_lem rounds (c + 1) r))
    ]

    pub in_rows_lem :
        (rounds r : ℕ)
        → column < module_count
        → in_rows rounds r x y
          ≡ (within r (r + rounds) row && is_dark qr scale border w full wide column row)
    unfolding in_rows
    in_rows_lem zero r hc = ground arith
    in_rows_lem (suc rounds) r hc =
        ground (arith, in_columns_lem module_count 0 r, in_rows_lem rounds (r + 1) hc)

  -- A place in no module's square.
  module _ (x y : ℕ)
      (outside : (c r : ℕ)
        → c < module_count
        → r < module_count
        → covers qr scale border w c r x y ≡ false) where
    in_columns_outside :
        (rounds c r : ℕ)
        → c + rounds ≤ module_count
        → r < module_count
        → in_columns rounds c r x y ≡ false
    unfolding in_columns
    in_columns_outside zero c r hc hr = refl
    in_columns_outside (suc rounds) c r hc hr =
        rw (outside c r (omega arith) hr)
          (ground (arith, in_columns_outside rounds (c + 1) r (omega arith) hr))

    pub in_rows_outside : (rounds r : ℕ) → r + rounds ≤ module_count → in_rows rounds r x y ≡ false
    unfolding in_rows
    in_rows_outside zero r hr = refl
    in_rows_outside (suc rounds) r hr = ground (
      arith,
      in_columns_outside module_count 0 r (omega arith) (omega arith),
      in_rows_outside rounds (r + 1) (omega arith),
    )
