-- ===== src/Shell/Program.antt =====
-- Win32Shell::run (src/win32_shell.cpp), with WinMain of src/main_gui.cpp: the start, the main
-- window and the loop over its messages.
use rin_windows.Base.{
  ℕ, ltb, Str, Bool, true, false, Option, none, some, List, [], ◌∷◌, length, ok, if◌then◌else◌,
}
use rin_windows.Base.Act.{Act, pure, modify, ◌>>=◌, ◌>>◌}
use rin_windows.Protocol.Json.{JsonLib}
use rin_windows.Crypto.OpenSsl.{OpenSsl}
use rin_windows.World.{World}
use rin_windows.QrCode.{Symbol}
use rin_windows.Camera.{fresh_scanner, stop}
use rin_windows.Mesh.Identity.{try_load_persisted}
use rin_windows.Mesh.Service.{start}
use rin_windows.Shell.{Shell, Desk, Message, QrMessage, on_engine, refresh_device_list, handle_qr}
use rin_windows.Shell.Messages.{handle_main}
use rin_windows.Shell.FirstLaunch.{Launch, run_first_launch_chooser}

unfoldable pub fresh_shell : World → Shell
unfolding fresh_scanner
fresh_shell w = record {
  engine = w;
  scanner = fresh_scanner;
  main_hwnd = false;
  qr_hwnd = none;
  qr_bitmap = none;
  rows = [];
  selected = none;
  status = [];
  tray_icon = false;
  visible = false;
  boxes = [];
  qr_windows = [];
  handles = 0;
  stopped = false;
  exit_code = none;
}

pub data Event : Type 0 where
  to_main : Message → Event
  to_qr : ℕ → QrMessage → Event
  -- the user selects a row
  selects : ℕ → Event

-- `created` is whether CreateWindowExW made the window.
unfoldable pub create_main_window : (Str → Str) → Bool → Shell → Shell
create_main_window wide false s = s
create_main_window wide true s = refresh_device_list wide (record s { main_hwnd = true })

-- What the start of the program meets.
pub record Boot : Type 0 where
  pub launch : Launch
  pub free_ports : ℕ → Bool
  pub udp : Option Str
  pub window_created : Bool
  -- whether the camera's StopAsync returns when the program ends
  pub released : Bool

module _ (J : JsonLib) (O : OpenSsl) (qrencode : Str → Option Symbol) (wide : Str → Str) where
  unfoldable pub dispatch_message : Desk → Event → Act Shell (Unit {0})
  unfolding handle_main handle_qr
  dispatch_message d (to_main m) = handle_main J O qrencode wide m d
  dispatch_message d (to_qr hwnd m) = modify (handle_qr d.released hwnd m)
  dispatch_message d (selects k) =
      modify (λ (s : Shell). if ltb k (length s.rows) then record s { selected = some k } else s)

  -- After the loop; `none` is a loop that waits for a message.
  unfoldable pub leave : Bool → Option ℕ → Act Shell (Option ℕ)
  leave released none s = (ok none, s)
  leave released (some code) s = (ok (some code), record s { scanner = stop released s.scanner })

  unfoldable pub unless_left : Bool → Option ℕ → Act Shell (Option ℕ) → Act Shell (Option ℕ)
  unfolding leave
  unless_left released none next = next
  unless_left released (some code) next = leave released (some code)

  unfoldable pub message_loop : Bool → List (Desk × Event) → Act Shell (Option ℕ)
  unfolding leave unless_left dispatch_message
  message_loop released [] s = leave released s.exit_code s
  message_loop released ((d, e) ∷ events) s =
      let rest = λ (done : Unit {0}). message_loop released events in
      unless_left released s.exit_code (dispatch_message d e >>= rest) s

  unfoldable pub show_main_window : Bool → Bool → List (Desk × Event) → Act Shell (Option ℕ)
  unfolding message_loop
  show_main_window released false events = pure (some 1)
  show_main_window released true events =
      modify (λ (s : Shell). record s { tray_icon = true; visible = true })
      >> message_loop released events

  unfoldable pub run_chosen : Boot → List (Desk × Event) → Option Bool → Act Shell (Option ℕ)
  unfolding show_main_window create_main_window
  run_chosen b events none = pure none
  run_chosen b events (some false) = pure (some 0)
  run_chosen b events (some true) = do
    on_engine (start b.free_ports b.udp b.launch.out.now)
    modify (create_main_window wide b.window_created)
    show_main_window b.released b.window_created events

  unfoldable pub choose : Launch → Bool → Act Shell (Option Bool)
  unfolding run_first_launch_chooser
  choose l true = pure (some true)
  choose l false = run_first_launch_chooser J O l l.choice

  -- Win32Shell::run; the answer is the exit code, `none` while it waits.
  unfoldable pub run : Boot → List (Desk × Event) → Act Shell (Option ℕ)
  unfolding run_chosen choose
  run b events = do
    loaded ← on_engine (try_load_persisted b.launch.out.now b.launch.storage)
    chosen ← choose b.launch loaded
    run_chosen b events chosen
