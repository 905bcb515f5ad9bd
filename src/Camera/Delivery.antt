-- ===== src/Camera/Delivery.antt =====
-- What one frame brings about, and what is left of the camera then (src/camera_qr_scanner.cpp).
use rin_windows.Base.{
  Bool, ℕ, ◌≡◌, refl, Str, true, false, Option, some, List, [], ◌∷◌, ◌++◌, arith,
}
use rin_windows.Camera.Luma.{Frame, read_frame}
use rin_windows.Camera.{CameraQrScanner, stop, frame_arrived}

-- A frame with a code that reaches a running scanner whose flag is not set brings the text to the
-- callback, and the flag is set. The scanner does not run then, so that stop does nothing: the
-- reader and the capture stay as they are.
pub frame_arrived-Delivers :
    (zxing : List ℕ → ℕ → ℕ → Option Str) (frame : Option Frame) (text : Str) (k : ℕ)
    (released : Bool) (s : CameraQrScanner)
    → read_frame zxing frame ≡ some text
    → s.running ≡ true
    → s.fired ≡ false
    → s.callback ≡ some k
    → (frame_arrived zxing frame s
        ≡ record s { fired = true; running = false; calls = s.calls ++ (k, text) ∷ [] })
      × (stop released (frame_arrived zxing frame s) ≡ frame_arrived zxing frame s)
unfolding frame_arrived stop
frame_arrived-Delivers zxing frame text k released s reads runs unfired for_k =
    let run = delivered in (run, rw run refl)
  where
    delivered :
        frame_arrived zxing frame s
        ≡ record s { fired = true; running = false; calls = s.calls ++ (k, text) ∷ [] }
    delivered = ground arith
