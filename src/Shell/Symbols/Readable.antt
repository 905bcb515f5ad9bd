-- ===== src/Shell/Symbols/Readable.antt =====
-- The bitmap of a symbol (qr_to_hbitmap in src/win32_shell.cpp), read by a scanner that sees it
-- pixel for pixel (src/camera_qr_scanner.cpp).
use rin_windows.Base.{
  ℕ, suc, ◌+◌, ◌*◌, ◌^◌, ◌%◌, ◌≤◌, ◌<◌, Str, pos, true, ◌≡◌, refl, ap, subst, ◌∙◌, Option, some,
  List, [], ◌∷◌, map, take, length, length-take, ok, arith,
}
use rin_windows.QrCode.{Symbol, QrImage, Picture, encode, render, at_least, render_grayscale}
use rin_windows.QrCode.Gray.{render-AreGray}
use rin_windows.QrCode.Pixels.{Shows, render_grayscale-Shows}
use rin_windows.Camera.Luma.{luma, dib_bytes, luma-dib_bytes, read_frame}
use rin_windows.Shell.Symbols.{Bitmap, bitmap_of, qr_to_hbitmap}

-- What libqrencode documents: at most 177 modules a side, and a byte for each module.
pub record IsSymbol (s : Symbol) : Type 0 where
  pub some_modules : 0 < s.width
  pub version_40 : s.width ≤ 177
  pub full : length s.bytes ≡ s.width * s.width

-- The modules of a symbol: the lowest bits.
abbrev pub image_of : Symbol → QrImage
image_of s = record {
  module_count = s.width;
  modules = map (λ (byte : ℕ). byte % 2) (take (s.width * s.width) s.bytes);
}

length-map : {A B : Type 0} (f : A → B) (xs : List A) → length (map f xs) ≡ length xs
length-map f [] = refl
length-map f (x ∷ xs) = ap suc (length-map f xs)

length-image_of : (s : Symbol) → IsSymbol s → length (image_of s).modules ≡ s.width * s.width
length-image_of s is =
    let taken = length-take (s.width * s.width) s.bytes in
    let whole = is.full in
    length-map (λ (byte : ℕ). byte % 2) (take (s.width * s.width) s.bytes)
    ∙ taken
    ∙ (grind (arith, whole))

-- The picture that is rendered, and its values.
rendered :
    (qr : QrImage) (p : Picture)
    → 0 < qr.module_count
    → render_grayscale qr (pos 6) (pos 4) ≡ ok (some p)
    → render qr 6 4 ≡ some p
unfolding render_grayscale at_least
rendered qr p some_modules e = ground (arith, some_modules, e)

-- The bitmap shows a picture of the symbol's modules, six pixels each with a border of four, and a
-- decoder gets just that picture from a frame of it.
pub record IsReadable (s : Symbol) (b : Bitmap) : Type 0 where
  pub picture : Picture
  pub shows : Shows (image_of s) 6 4 picture
  pub reads :
      (zxing : List ℕ → ℕ → ℕ → Option Str)
      → read_frame zxing
          (some (record { pixel_width = b.width; pixel_height = b.height; bytes = b.bits }))
        ≡ zxing picture.pixels picture.width picture.height

module _ (s : Symbol) (is : IsSymbol s) where
  fits : (s.width + 2 * 4) * 6 < 2 ^ 31
  fits = let small = is.version_40 in omega (arith, small)

  -- The picture of a symbol.
  symbol_picture :
      (p : Picture) × (render_grayscale (image_of s) (pos 6) (pos 4) ≡ ok (some p))
      × Shows (image_of s) 6 4 p
  unfolding at_least
  symbol_picture =
      render_grayscale-Shows (image_of s) (pos 6) (pos 4) is.some_modules (length-image_of s is)
        fits

  encoded :
      (qrencode : Str → Option Symbol) (json : Str)
      → qrencode json ≡ some s
      → encode qrencode json ≡ ok (image_of s)
  unfolding encode
  encoded qrencode json made = ground (arith, made)

  bitmap_for : Picture → Bitmap
  bitmap_for p = record { width = p.width; height = p.height; bits = dib_bytes p.pixels }

  reads_back :
      (p : Picture)
      → render_grayscale (image_of s) (pos 6) (pos 4) ≡ ok (some p)
      → Shows (image_of s) 6 4 p
      → luma (p.width * p.height) (dib_bytes p.pixels) ≡ some p.pixels
  reads_back p e shows =
      subst (λ (n : ℕ). luma n (dib_bytes p.pixels) ≡ some p.pixels) shows.size
        (luma-dib_bytes p.pixels
          (render-AreGray (image_of s) 6 4 p (rendered (image_of s) p is.some_modules e)))

  -- For every text of which libqrencode makes a symbol, of at most 177 modules a side and a byte for
  -- each, and where Windows gives a bitmap, the window
  -- shows the symbol's modules, each six pixels wide and high inside a border of four modules, and a
  -- scanner that sees the bitmap pixel for pixel hands the decoder exactly that picture.
  pub qr_to_hbitmap-IsReadable :
      (qrencode : Str → Option Symbol) (json : Str)
      → qrencode json ≡ some s
      → (b : Bitmap) × (qr_to_hbitmap qrencode true json (pos 6) ≡ some b) × IsReadable s b
  unfolding qr_to_hbitmap bitmap_of read_frame bitmap_for
  qr_to_hbitmap-IsReadable qrencode json made =
      let (p, e, shows) = symbol_picture in
      (
        bitmap_for p,
        rw (encoded qrencode json made, e) refl,
        record { picture = p; shows = shows; reads = λ zxing. rw (reads_back p e shows) refl },
      )
