-- ===== src/Camera/Luma.antt =====
-- The grey values that the scanner reads from a frame (src/camera_qr_scanner.cpp), and the bitmap in
-- which the window shows a symbol (src/win32_shell.cpp).
use rin_windows.Base.{
  ℕ, zero, suc, ◌+◌, ◌*◌, ◌/◌, ◌%◌, ◌^◌, ◌≤◌, ◌<◌, ◌≡◌, refl, ap, Str, Option, none, some, List, [],
  ◌∷◌, All, length, arith,
}

-- A frame in Bgra8: four bytes a pixel.
pub record Frame : Type 0 where
  pub pixel_width : ℕ
  pub pixel_height : ℕ
  pub bytes : List ℕ

-- static_cast<uint8_t>((r * 299 + g * 587 + b * 114) / 1000)
unfoldable pub luma_of : ℕ → ℕ → ℕ → ℕ
luma_of b g r = (r * 299 + g * 587 + b * 114) / 1000 % 256

infixr 67 ◌∷?◌
abbrev pub ◌∷?◌ : ℕ → Option (List ℕ) → Option (List ℕ)
v ∷? none = none
v ∷? some vs = some (v ∷ vs)

-- for (i = ...; rounds left). A read past the bytes is `none`.
unfoldable pub luma : ℕ → List ℕ → Option (List ℕ)
unfolding luma_of
luma zero bytes = some []
luma (suc rounds) (b ∷ g ∷ r ∷ a ∷ rest) = luma_of b g r ∷? luma rounds rest
luma (suc rounds) short = none

abbrev read_luma : (List ℕ → ℕ → ℕ → Option Str) → Frame → Option (List ℕ) → Option Str
read_luma zxing frame none = none
read_luma zxing frame (some pixels) = zxing pixels frame.pixel_width frame.pixel_height

-- What ZXing reads from a frame, if there is one.
unfoldable pub read_frame : (List ℕ → ℕ → ℕ → Option Str) → Option Frame → Option Str
unfolding luma
read_frame zxing none = none
read_frame zxing (some frame) =
    read_luma zxing frame (luma (frame.pixel_width * frame.pixel_height) frame.bytes)

-- (0xFF << 24) | (v << 16) | (v << 8) | v, where the bytes do not overlap
unfoldable pub dib_pixel : ℕ → ℕ
dib_pixel v = 255 * 2 ^ 24 + v * 2 ^ 16 + v * 2 ^ 8 + v

-- The bytes of a uint32_t in memory.
abbrev pub bytes_of_u32 : ℕ → List ℕ → List ℕ
bytes_of_u32 v rest = (v % 256) ∷ (v / 256 % 256) ∷ (v / 65536 % 256) ∷ (v / 16777216 % 256) ∷ rest

-- The loop of qr_to_hbitmap over the pixels.
unfoldable pub dib_bytes : List ℕ → List ℕ
unfolding dib_pixel
dib_bytes [] = []
dib_bytes (v ∷ gray) = bytes_of_u32 (dib_pixel v) (dib_bytes gray)

-- The three coefficients add up to one, so no value is cut to its low byte.
pub luma_of_bounds :
    (b g r low high : ℕ)
    → (low ≤ b) × (low ≤ g) × (low ≤ r)
    → (b ≤ high) × (g ≤ high) × (r ≤ high)
    → high < 256
    → (low ≤ luma_of b g r) × (luma_of b g r ≤ high)
unfolding luma_of
luma_of_bounds b g r low high lows highs byte = omega arith

-- A frame that shows the window's bitmap of a symbol pixel for pixel is read as the grey pixels of
-- which the bitmap was made.
pub luma-dib_bytes :
    (gray : List ℕ) → All (λ v. v < 256) gray → luma (length gray) (dib_bytes gray) ≡ some gray
unfolding luma dib_bytes dib_pixel
luma-dib_bytes [] byte = refl
luma-dib_bytes (v ∷ gray) byte =
    rw (luma-dib_bytes gray byte.1) (ap some (ap (λ (w : ℕ). w ∷ gray) (omega arith)))
