-- ===== src/QrCode.antt =====
-- src/qr_code.cpp: the symbol as a grid of modules, and its picture in grey pixels.
pub mod Gray
pub mod Grid
pub mod Marks
pub mod Paints
pub mod Pixels
pub mod Bitmap
use rin_windows.Base.{
  ℕ, zero, suc, ◌+◌, ◌-◌, ◌*◌, ◌%◌, ◌^◌, ltb, leb, ◌==◌, Str, lit, ℤ, pos, negsuc, to_string, Bool,
  Option, none, some, List, [], ◌∷◌, ◌++◌, map, length, get_elem?, take, drop, replicate, Result,
  ok, err, qr_code_exception, if◌then◌else◌,
}

-- A symbol as libqrencode returns it: its width, and a byte for each module.
pub record Symbol : Type 0 where
  pub width : ℕ
  pub bytes : List ℕ

pub record QrImage : Type 0 where
  pub module_count : ℕ
  pub modules : List ℕ

-- QrCode::encode; `symbol` is what QRcode_encodeData made of the text.
unfoldable pub encode : (Str → Option Symbol) → Str → Result QrImage
encode qrencode text = elim (qrencode text) [
  | none ↦ err (
      qr_code_exception (
        lit "QR encoding failed -- join token is likely too large for a single QR symbol (size was "
        ++ (to_string (pos (length text)) ++ lit " bytes)")))
  | some qr ↦ ok (record {
    module_count = qr.width;
    modules = map (λ byte. byte % 2) (take (qr.width * qr.width) qr.bytes);
  })
]

-- std::memset(&v[offset], value, count). A write outside the vector is `none`.
unfoldable pub memset : ℕ → ℕ → ℕ → List ℕ → Option (List ℕ)
memset offset value count v =
    if leb (offset + count) (length v)
    then some (take offset v ++ (replicate count value ++ drop (offset + count) v))
    else none

infixl 5 ◌>>=◌
abbrev pub ◌>>=◌ : Option (List ℕ) → (List ℕ → Option (List ℕ)) → Option (List ℕ)
none >>= next = none
some v >>= next = next v

-- The loops of QrCode::render_grayscale. A read or a write outside a vector is `none`.
module _ (qr : QrImage) (scale quiet_zone_modules pixel_size : ℕ) where
  -- for (dy = ...; rounds left)
  unfoldable pub paint_module : ℕ → ℕ → ℕ → ℕ → List ℕ → Option (List ℕ)
  paint_module zero dy px0 py0 pixels = some pixels
  paint_module (suc rounds) dy px0 py0 pixels =
      memset ((py0 + dy) * pixel_size + px0) 0 scale pixels >>= paint_module rounds (dy + 1) px0 py0

  unfoldable pub paint_dark : Option ℕ → ℕ → ℕ → List ℕ → Option (List ℕ)
  paint_dark none x y pixels = none
  paint_dark (some zero) x y pixels = some pixels
  paint_dark (some (suc k)) x y pixels =
      paint_module scale 0 ((x + quiet_zone_modules) * scale) ((y + quiet_zone_modules) * scale)
        pixels

  -- for (x = ...; rounds left)
  unfoldable pub paint_columns : ℕ → ℕ → ℕ → List ℕ → Option (List ℕ)
  paint_columns zero x y pixels = some pixels
  paint_columns (suc rounds) x y pixels =
      paint_dark (get_elem? qr.modules (y * qr.module_count + x)) x y pixels
      >>= paint_columns rounds (x + 1) y

  -- for (y = ...; rounds left)
  unfoldable pub paint_rows : ℕ → ℕ → List ℕ → Option (List ℕ)
  paint_rows zero y pixels = some pixels
  paint_rows (suc rounds) y pixels =
      paint_columns qr.module_count 0 y pixels >>= paint_rows rounds (y + 1)

-- `if (scale < 1) scale = 1;`
unfoldable pub at_least : ℕ → ℤ → ℕ
at_least low (pos n) = if ltb n low then low else n
at_least low (negsuc n) = low

pub record Picture : Type 0 where
  pub width : ℕ
  pub height : ℕ
  pub pixels : List ℕ

pictured : ℕ → Option (List ℕ) → Option Picture
pictured size none = none
pictured size (some pixels) = some (record { width = size; height = size; pixels = pixels })

-- The picture for a scale and a border in range; `none` is a number that does not fit an int, or an
-- access outside a vector.
unfoldable pub render : QrImage → ℕ → ℕ → Option Picture
unfolding paint_rows pictured
render qr scale quiet_zone_modules =
    let pixel_size = (qr.module_count + 2 * quiet_zone_modules) * scale in
    if ltb pixel_size (2 ^ 31)
    then pictured pixel_size (
        paint_rows qr scale quiet_zone_modules pixel_size qr.module_count 0
          (replicate (pixel_size * pixel_size) 255))
    else none

-- QrCode::render_grayscale
unfoldable pub render_grayscale : QrImage → ℤ → ℤ → Result (Option Picture)
unfolding render at_least
render_grayscale qr scale quiet_zone_modules =
    if qr.module_count == 0
    then err (qr_code_exception (lit "render_grayscale: empty QR image"))
    else ok (render qr (at_least 1 scale) (at_least 0 quiet_zone_modules))
