-- ===== src/Shell.antt =====
-- src/win32_shell.cpp: the windows of the program, the handlers of their messages, and what these
-- call.
pub mod Labels
pub mod Messages
pub mod Symbols
pub mod FirstLaunch
pub mod Program
pub mod Quitting
pub mod Removal
use rin_windows.Base.{
  ℕ, suc, ◌==◌, ltb, Str, lit, pos, Bool, true, false, not, Option, none, some, List, [], ◌∷◌, ◌++◌,
  map, length, get_elem?, Result, ok, err, or_throw, json_exception, if◌then◌else◌,
}
use rin_windows.Base.Act.{Act, pure, lift, gets, modify, ◌>>=◌, ◌>>◌}
use rin_windows.Protocol.{QrJoinToken}
use rin_windows.Protocol.Json.{JsonLib}
use rin_windows.Protocol.Payloads.{token_from_json}
use rin_windows.Crypto.OpenSsl.{OpenSsl}
use rin_windows.Device.{TrustedDevice}
use rin_windows.World.{World, MeshEvent}
use rin_windows.QrCode.{Symbol}
use rin_windows.Camera.{CameraQrScanner, Opening, begin_start, finish_start, stop}
use rin_windows.Mesh.Devices.{trusted_devices}
use rin_windows.Mesh.Service.{recent_events}
use rin_windows.Mesh.Outbox.{Outside, revoke_device, build_join_token_json}
use rin_windows.Mesh.Identity.Handshake.{complete_join_handshake}
use rin_windows.Shell.Labels.{Row, to_wstring, row_of}
use rin_windows.Shell.Symbols.{Bitmap, qr_to_hbitmap}

-- The engine and the scanner, and what can be seen of the windows. The list view is made with the
-- main window.
pub record Shell : Type 0 where
  pub engine : World
  pub scanner : CameraQrScanner
  pub main_hwnd : Bool
  pub qr_hwnd : Option ℕ
  pub qr_bitmap : Option Bitmap
  pub rows : List Row
  pub selected : Option ℕ
  pub status : Str
  pub tray_icon : Bool
  pub visible : Bool
  -- the texts of the message boxes, in order, but for the two questions of the first launch
  pub boxes : List Str
  -- the windows that show a symbol, by their handles, and the next handle
  pub qr_windows : List ℕ
  pub handles : ℕ
  -- MeshEngine::stop was called
  pub stopped : Bool
  -- PostQuitMessage was called
  pub exit_code : Option ℕ

-- What Windows and the user answer to one message.
pub record Desk : Type 0 where
  pub out : Outside
  pub dib_section : Bool
  pub window : Bool
  pub opening : Opening
  -- whether the camera's StopAsync returns
  pub released : Bool
  pub answer_yes : Bool

pub data TrayEvent : Type 0 where
  select key_select context_menu another : TrayEvent

pub data Message : Type 0 where
  taskbar_created : Message
  timer : ℕ → Message
  command : ℕ → Message
  tray : TrayEvent → Message
  -- WM_APP + 20, with its LPARAM
  decoded : Option Str → Message
  close : Message
  destroy : Message
  other : Message

pub data QrMessage : Type 0 where
  qr_paint qr_close qr_other : QrMessage

abbrev pub on_engine : {A : Type 0} → Act World A → Act Shell A
on_engine m s = let (r, w) = m s.engine in (r, record s { engine = w })

abbrev pub box : Str → Shell → Shell
box text s = record s { boxes = s.boxes ++ text ∷ [] }

-- events.empty() ? L"" : to_wstring(events.back().message)
unfoldable pub last_message : (Str → Str) → List MeshEvent → Str
unfolding to_wstring
last_message wide [] = []
last_message wide (e ∷ []) = to_wstring wide e.message
last_message wide (e ∷ f ∷ es) = last_message wide (f ∷ es)

-- Deleting the items of the list view takes the selection with them.
unfoldable pub refresh_device_list : (Str → Str) → Shell → Shell
unfolding last_message
refresh_device_list wide s =
    if s.main_hwnd
    then record s {
      rows = map (row_of wide) (trusted_devices s.engine);
      selected = none;
      status = last_message wide (recent_events 1 s.engine);
    }
    else s

unfoldable pub open_qr_window : Bool → Shell → Shell
open_qr_window false s = record s { qr_hwnd = none }
open_qr_window true s = record s {
  qr_hwnd = some s.handles;
  qr_windows = s.handles ∷ s.qr_windows;
  handles = suc s.handles;
}

unfoldable pub show_symbol : Bool → Option Bitmap → Shell → Shell
unfolding open_qr_window
show_symbol window none s = box (lit "Could not generate QR code.") s
show_symbol window (some b) s = open_qr_window window (record s { qr_bitmap = some b })

unfoldable pub without : ℕ → List ℕ → List ℕ
without h [] = []
without h (k ∷ ks) = let rest = without h ks in if h == k then rest else k ∷ rest

-- if (qr_hwnd_) { DestroyWindow(qr_hwnd_); qr_hwnd_ = nullptr; }
unfoldable pub close_qr : Option ℕ → Shell → Shell
unfolding without
close_qr none s = s
close_qr (some h) s = record s { qr_hwnd = none; qr_windows = without h s.qr_windows }

unfoldable pub start_scan : Opening → Shell → Shell
start_scan opening s =
    if s.scanner.running
    then s
    else record s { scanner = finish_start opening (begin_start s.scanner) }

unfoldable pub remove_tray_icon : Shell → Shell
remove_tray_icon s = if s.main_hwnd then record s { tray_icon = false } else s

abbrev pub restore_from_tray : Shell → Shell
restore_from_tray s = record s { visible = true }

-- WM_DESTROY
unfoldable pub on_destroy : Shell → Shell
unfolding remove_tray_icon
on_destroy s = record (remove_tray_icon s) { exit_code = some 0 }

-- Quit in the menu. DestroyWindow takes the windows that the main window owns with it.
unfoldable pub quit_clicked : Shell → Shell
unfolding on_destroy
quit_clicked s = on_destroy (record (remove_tray_icon s) { stopped = true; qr_windows = [] })

unfoldable pub on_tray : TrayEvent → Shell → Shell
on_tray select s = restore_from_tray s
on_tray key_select s = restore_from_tray s
on_tray context_menu s = s
on_tray another s = s

-- The device in the selected row; a row past the table is none.
unfoldable pub chosen : Option ℕ → List TrustedDevice → Option TrustedDevice
chosen none ds = none
chosen (some k) ds = get_elem? ds k

-- Any window that shows a symbol clears qr_hwnd_.
-- `released` is the answer of the camera to stop.
unfoldable pub handle_qr : Bool → ℕ → QrMessage → Shell → Shell
unfolding without
handle_qr released hwnd qr_paint s = s
handle_qr released hwnd qr_close s = record s {
  scanner = stop released s.scanner;
  qr_windows = without hwnd s.qr_windows;
  qr_hwnd = none;
}
handle_qr released hwnd qr_other s = s
