-- ===== src/Camera.antt =====
-- src/camera_qr_scanner.cpp, built with ZXing: the scanner as steps of the thread of the window and
-- of the threads on which frames arrive.
pub mod Luma
pub mod Delivery
pub mod Once
pub mod Steps
use rin_windows.Base.{
  not, ◌&&◌, ℕ, zero, suc, ◌+◌, Str, lit, ◌≡◌, Bool, true, false, Option, none, some, List, [], ◌∷◌,
  ◌++◌, if◌then◌else◌,
}
use rin_windows.Audit.{AuditLevel, info, security_warning}
use rin_windows.Camera.Luma.{Frame, read_frame}

-- Where a call of the FrameArrived handler stands.
pub data Handler : Type 0 where
  -- before it reads `running_`
  arrived : Handler
  -- before its first look at `fired`
  awake : Handler
  -- before it takes a frame and reads it
  looking : Handler
  -- with a text, before its second look at `fired`
  decoded : Str → Handler
  -- with the callback that it copied, before it clears `running_`
  claimed : Option ℕ → Str → Handler
  -- before the call
  stopping : Option ℕ → Str → Handler

-- A callback is the number of the call of start that gave it. `frame_reader` and `capture` tell
-- whether the objects are there; `calls` are the calls of callbacks and `lines` what was logged.
pub record CameraQrScanner : Type 0 where
  pub running : Bool
  pub fired : Bool
  pub callback : Option ℕ
  pub frame_reader : Bool
  pub capture : Bool
  -- how often start has set a callback
  pub starts : ℕ
  -- start is between setting its callback and returning
  pub starting : Bool
  pub handlers : List Handler
  pub calls : List (ℕ × Str)
  pub lines : List (AuditLevel × Str)

unfoldable pub fresh_scanner : CameraQrScanner
fresh_scanner = record {
  running = false;
  fired = false;
  callback = none;
  frame_reader = false;
  capture = false;
  starts = 0;
  starting = false;
  handlers = [];
  calls = [];
  lines = [];
}

abbrev logged : AuditLevel → Str → CameraQrScanner → CameraQrScanner
logged level message s = record s { lines = s.lines ++ (level, message) ∷ [] }

-- start, up to the search for a camera. A scanner that runs is left as it is.
unfoldable pub begin_start : CameraQrScanner → CameraQrScanner
begin_start s = if s.running then s else record s {
  callback = some s.starts;
  fired = false;
  starts = s.starts + 1;
  starting = true;
}

-- What becomes of the rest of start.
pub data Opening : Type 0 where
  no_camera : Opening
  -- a WinRT call throws, before or after the capture and the reader are made; the text is logged
  fails : Bool → Bool → Str → Opening
  opens : Opening

unfoldable pub finish_start : Opening → CameraQrScanner → CameraQrScanner
finish_start no_camera s =
    logged security_warning
      (lit "CameraQrScanner: no colour camera found -- falling back to manual token paste")
      (record s { starting = false })
finish_start (fails capture frame_reader message) s =
    logged security_warning message (record s {
      capture = capture;
      frame_reader = frame_reader;
      running = false;
      starting = false;
    })
finish_start opens s =
    logged info (lit "Camera QR scanner started -- waiting for a Rin join token")
      (record s { capture = true; frame_reader = true; running = true; starting = false })

-- `released` is whether StopAsync returns. What it throws is caught, and the reader, if there was
-- one, and the capture stay.
unfoldable pub stop : Bool → CameraQrScanner → CameraQrScanner
stop released s =
    let kept = s.frame_reader && not released in
    if s.running
    then logged info (lit "Camera QR scanner stopped")
        (record s { running = false; frame_reader = kept; capture = kept && s.capture })
    else s

unfoldable pub call : Option ℕ → Str → CameraQrScanner → CameraQrScanner
call none text s = s
call (some k) text s = record s { calls = s.calls ++ (k, text) ∷ [] }

-- The next step of a handler: where it stands then, or `none` when it has returned. `frame` is what
-- the reader has when the handler asks.
module _ (zxing : List ℕ → ℕ → ℕ → Option Str) where
  unfoldable pub seen : Option Str → Option Handler
  seen none = none
  seen (some text) = some (decoded text)

  unfoldable pub advance :
      Option Frame → Handler → CameraQrScanner → Option Handler × CameraQrScanner
  unfolding seen call
  advance frame arrived s = (if s.running then some awake else none, s)
  advance frame awake s = (if s.fired then none else some looking, s)
  advance frame looking s = (seen (read_frame zxing frame), s)
  advance frame (decoded text) s =
      if s.fired then (none, s) else (some (claimed s.callback text), record s { fired = true })
  advance frame (claimed cb text) s = (some (stopping cb text), record s { running = false })
  advance frame (stopping cb text) s = (none, call cb text s)

  -- The steps of a handler with no step of another thread between them.
  unfoldable pub run_handler : ℕ → Option Frame → Option Handler × CameraQrScanner → CameraQrScanner
  unfolding advance
  run_handler zero frame (h, s) = s
  run_handler (suc rounds) frame (none, s) = s
  run_handler (suc rounds) frame (some h, s) = run_handler rounds frame (advance frame h s)

  unfoldable pub frame_arrived : Option Frame → CameraQrScanner → CameraQrScanner
  unfolding run_handler
  frame_arrived frame s = run_handler 6 frame (some arrived, s)
