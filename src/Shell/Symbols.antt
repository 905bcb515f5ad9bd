-- ===== src/Shell/Symbols.antt =====
-- qr_to_hbitmap (src/win32_shell.cpp): a join token as a bitmap.
pub mod Readable
use rin_windows.Base.{
  ℕ, Str, ℤ, pos, Bool, true, false, Option, none, some, List, Result, ok, err, ◌>>=◌,
}
use rin_windows.QrCode.{Symbol, Picture, encode, render_grayscale}
use rin_windows.Camera.Luma.{dib_bytes}

-- A DIB section of 32 bits a pixel, its rows from the top.
pub record Bitmap : Type 0 where
  pub width : ℕ
  pub height : ℕ
  pub bits : List ℕ

-- Whatever is thrown is a null handle. So is a picture too large for an int, which overflows in the
-- source; no symbol of libqrencode is as large.
unfoldable pub bitmap_of : Bool → Result (Option Picture) → Option Bitmap
unfolding dib_bytes
bitmap_of dib_section (err e) = none
bitmap_of dib_section (ok none) = none
bitmap_of false (ok (some p)) = none
bitmap_of true (ok (some p)) =
    some (record { width = p.width; height = p.height; bits = dib_bytes p.pixels })

-- `dib_section` is whether CreateDIBSection made one.
unfoldable pub qr_to_hbitmap : (Str → Option Symbol) → Bool → Str → ℤ → Option Bitmap
unfolding bitmap_of encode
qr_to_hbitmap qrencode dib_section json scale =
    bitmap_of dib_section (encode qrencode json >>= λ qr. render_grayscale qr scale (pos 4))
