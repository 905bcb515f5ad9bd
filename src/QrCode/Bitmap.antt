-- ===== src/QrCode/Bitmap.antt =====
-- QrCode::save_as_bmp (src/qr_code.cpp): the bytes of the file.
pub mod Parts
pub mod Reading
use rin_windows.Base.{
  ℕ, zero, suc, ◌+◌, ◌-◌, ◌*◌, ◌/◌, ◌%◌, ◌^◌, Str, lit, ℤ, pos, Bool, true, false, Option, none,
  some, List, [], ◌∷◌, ◌++◌, take, drop, replicate, Result, ok, err, qr_code_exception, ◌>>=◌,
}
use rin_windows.QrCode.{Symbol, encode, Picture, render_grayscale}

-- (width + 3) & ~3
abbrev pub row_padded : ℕ → ℕ
row_padded width = (width + 3) / 4 * 4

-- The bytes of a uint16_t and of a uint32_t, the low one first; `rest` is what is written after.
abbrev pub write_u16 : ℕ → List ℕ → List ℕ
write_u16 v rest = (v % 256) ∷ (v / 256 % 256) ∷ rest

abbrev pub write_u32 : ℕ → List ℕ → List ℕ
write_u32 v rest = (v % 256) ∷ (v / 256 % 256) ∷ (v / 65536 % 256) ∷ (v / 16777216 % 256) ∷ rest

abbrev pub pixel_data_offset : ℕ
pixel_data_offset = 14 + 40 + 256 * 4

-- BITMAPFILEHEADER and BITMAPINFOHEADER. Sums are taken in uint32_t.
unfoldable pub bmp_header : ℕ → ℕ → List ℕ → List ℕ
bmp_header width height rest =
    b'B'
    ∷ b'M'
    ∷ write_u32 ((pixel_data_offset + row_padded width * height) % 2 ^ 32) (
        write_u32 0 (
          write_u32 pixel_data_offset (
            write_u32 40 (
              write_u32 width (
                write_u32 height (
                  write_u16 1 (
                    write_u16 8 (
                      write_u32 0 (
                        write_u32 (row_padded width * height % 2 ^ 32) (
                          write_u32 2835
                            (write_u32 2835 (write_u32 256 (write_u32 0 rest)))))))))))))

-- for (i = ...; rounds left), with what is written after
unfoldable pub bmp_palette : ℕ → ℕ → List ℕ → List ℕ
bmp_palette zero i rest = rest
bmp_palette (suc rounds) i rest = i ∷ i ∷ i ∷ 0 ∷ bmp_palette rounds (i + 1) rest

-- A row, over a row of padding.
unfoldable pub bmp_row : ℕ → List ℕ → ℕ → List ℕ
bmp_row width gray y =
    take width (drop (y * width) gray) ++ replicate (row_padded width - width) 255

-- for (y = height - 1; y >= 0; --y)
unfoldable pub bmp_rows : ℕ → List ℕ → ℕ → List ℕ
unfolding bmp_row
bmp_rows width gray zero = []
bmp_rows width gray (suc y) = bmp_row width gray y ++ bmp_rows width gray y

unfoldable pub bmp_bytes : Picture → List ℕ
unfolding bmp_header bmp_palette bmp_rows
bmp_bytes p = bmp_header p.width p.height (bmp_palette 256 0 (bmp_rows p.width p.pixels p.height))

written : Str → Bool → Option Picture → Result (Option (List ℕ))
written file_path opened none = ok none
written file_path true (some p) = ok (some (bmp_bytes p))
written file_path false (some p) =
    err (
      qr_code_exception (lit "save_as_bmp: could not open '" ++ (file_path ++ lit "' for writing")))

-- QrCode::save_as_bmp: what is written to the file, if it could be opened. `none` is the picture
-- that render_grayscale cannot make.
unfoldable pub save_as_bmp : (Str → Option Symbol) → Bool → Str → Str → ℤ → Result (Option (List ℕ))
unfolding written
save_as_bmp qrencode opened text file_path scale = do
  qr ← encode qrencode text
  picture ← render_grayscale qr scale (pos 4)
  written file_path opened picture
