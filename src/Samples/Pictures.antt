-- ===== src/Samples/Pictures.antt =====
-- The pictures of src/qr_code.cpp and the scanner of src/camera_qr_scanner.cpp, at concrete values.
use rin_windows.Base.{
  ℕ, ◌+◌, ◌*◌, ◌≤◌, ◌<◌, ◌≡◌, refl, Str, lit, pos, negsuc, true, false, Option, some, List, [], ◌∷◌,
  ◌++◌, length, get_elem?, ok, arith, if◌then◌else◌,
}
use rin_windows.QrCode.{
  QrImage, Picture, memset, paint_module, paint_dark, paint_columns, at_least, render_grayscale,
}
use rin_windows.QrCode.Pixels.{Shows, render_grayscale-Shows}
use rin_windows.QrCode.Bitmap.{bmp_bytes}
use rin_windows.QrCode.Bitmap.Reading.{read_u32, read_pixel, bmp_bytes-Reads}
use rin_windows.Camera.{
  CameraQrScanner, fresh_scanner, begin_start, opens, finish_start, stop, frame_arrived, arrived,
}
use rin_windows.Camera.Luma.{Frame, read_frame, dib_bytes}
use rin_windows.Camera.Steps.{Reaches, here, next, begin, finish, arrive, count_calls, count_owed}
use rin_windows.Camera.Once.{callback_once}
use rin_windows.Camera.Delivery.{frame_arrived-Delivers}

abbrev tile : QrImage
tile = record { module_count = 2; modules = 1 ∷ 0 ∷ 0 ∷ 1 ∷ [] }

-- A scale below one is one.
render_grayscale-Shows_example :
    (p : Picture) × (render_grayscale tile (negsuc 2) (pos 4) ≡ ok (some p))
    × Shows tile (at_least 1 (negsuc 2)) (at_least 0 (pos 4)) p
render_grayscale-Shows_example =
    render_grayscale-Shows tile (negsuc 2) (pos 4) (omega arith) refl
      (unfold at_least in omega arith)

abbrev tile_picture : Picture
tile_picture = record { width = 2; height = 2; pixels = 0 ∷ 255 ∷ 255 ∷ 0 ∷ [] }

render_test : render_grayscale tile (pos 1) (pos 0) ≡ ok (some tile_picture)
unfolding render_grayscale paint_columns paint_dark paint_module memset
render_test = refl

bmp_bytes-Reads_example :
    (read_u32 (bmp_bytes tile_picture) 2 ≡ some (length (bmp_bytes tile_picture)))
    × ((x y : ℕ)
        → x < 2
        → y < 2
        → read_pixel (bmp_bytes tile_picture) x y ≡ get_elem? tile_picture.pixels (y * 2 + x))
bmp_bytes-Reads_example = bmp_bytes-Reads tile_picture refl (omega arith) (omega arith)

-- A decoder that reads the same text in every picture.
abbrev reads_all : List ℕ → ℕ → ℕ → Option Str
reads_all pixels width height = some (lit "token")

abbrev scanning : CameraQrScanner
scanning = record (finish_start opens (begin_start fresh_scanner)) {
  handlers = (finish_start opens (begin_start fresh_scanner)).handlers ++ arrived ∷ [];
}

scanning-Reaches : Reaches reads_all fresh_scanner scanning
unfolding fresh_scanner begin_start
scanning-Reaches = next (next (next here (begin refl)) (finish opens refl)) arrive

callback_once_example :
    (count_calls 0 scanning.calls ≤ 1)
    × (scanning.callback ≡ some 0
        → count_owed 0 scanning.handlers + count_calls 0 scanning.calls
          ≡ (if scanning.fired then 1 else 0))
callback_once_example = callback_once reads_all scanning-Reaches 0

abbrev picture_frame : Option Frame
picture_frame =
    some (record { pixel_width = 2; pixel_height = 2; bytes = dib_bytes tile_picture.pixels })

frame_arrived-Delivers_example :
    (frame_arrived reads_all picture_frame scanning ≡ record scanning {
      fired = true;
      running = false;
      calls = scanning.calls ++ (0, lit "token") ∷ [];
    })
    × (stop true (frame_arrived reads_all picture_frame scanning)
        ≡ frame_arrived reads_all picture_frame scanning)
unfolding fresh_scanner begin_start finish_start read_frame dib_bytes
frame_arrived-Delivers_example =
    frame_arrived-Delivers reads_all picture_frame (lit "token") 0 true scanning refl refl refl refl
