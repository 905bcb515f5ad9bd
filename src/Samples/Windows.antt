-- ===== src/Samples/Windows.antt =====
-- The windows of src/win32_shell.cpp, at concrete values.
use rin_windows.Base.{none, false, List, map, lit, ◌≡◌, refl, pos, true, some, [], ◌∷◌, ok, arith}
use rin_windows.Device.{blank_device}
use rin_windows.World.{fresh_world}
use rin_windows.QrCode.{Symbol}
use rin_windows.Camera.{opens}
use rin_windows.Shell.{Shell, Desk, timer, command, close}
use rin_windows.Shell.Messages.{handle_main}
use rin_windows.Shell.Symbols.{Bitmap, qr_to_hbitmap}
use rin_windows.Shell.Symbols.Readable.{IsSymbol, IsReadable, qr_to_hbitmap-IsReadable}
use rin_windows.Shell.Program.{Event, to_main, message_loop, fresh_shell}
use rin_windows.Shell.Labels.{row_of}
use rin_windows.Mesh.Devices.{trusted_devices}
use rin_windows.Shell.Quitting.{message_loop-Ends}
use rin_windows.Shell.Removal.{RemovesOnly, remove-RemovesOnly}
use rin_windows.Samples.JsonTree.{json}
use rin_windows.Samples.ToySsl.{ssl}
use rin_windows.Samples.Meshes.{net}

abbrev dot : Symbol
dot = record { width = 1; bytes = 3 ∷ [] }

dot-IsSymbol : IsSymbol dot
dot-IsSymbol = record { some_modules = omega arith; version_40 = omega arith; full = refl }

qr_to_hbitmap-IsReadable_example :
    (b : Bitmap) × (qr_to_hbitmap (λ text. some dot) true (lit "token") (pos 6) ≡ some b)
    × IsReadable dot b
qr_to_hbitmap-IsReadable_example =
    qr_to_hbitmap-IsReadable dot dot-IsSymbol (λ text. some dot) (lit "token") refl

abbrev desk : Desk
desk = record {
  out = net;
  dib_section = true;
  window = true;
  opening = opens;
  released = true;
  answer_yes = true;
}

-- The list has two devices, and the second is selected.
abbrev two_devices : Shell
two_devices =
    record (fresh_shell (record (fresh_world []) {
      devices =
          (lit "me", record blank_device { public_key = lit "me"; is_self = true })
          ∷ (lit "K7", record blank_device { public_key = lit "K7" })
          ∷ [];
    })) {
      main_hwnd = true;
      selected = some 1;
      rows =
          row_of (λ text. text) (record blank_device { public_key = lit "me"; is_self = true })
          ∷ row_of (λ text. text) (record blank_device { public_key = lit "K7" })
          ∷ [];
    }

two_devices-shown :
    two_devices.rows ≡ map (row_of (λ text. text)) (trusted_devices two_devices.engine)
unfolding trusted_devices fresh_shell
two_devices-shown = refl

remove-RemovesOnly_example :
    RemovesOnly json ssl
      (λ text. some dot)
      (λ text. text)
      desk
      two_devices
      (handle_main json ssl (λ text. some dot) (λ text. text) (command 1003) desk two_devices).1
    × (let redrawn =
          (handle_main json ssl (λ text. some dot) (λ text. text) (timer 1) desk two_devices).1 in
        (redrawn.rows ≡ map (row_of (λ text. text)) (trusted_devices redrawn.engine))
        × (handle_main json ssl (λ text. some dot) (λ text. text) (command 1003) desk redrawn
            ≡ (ok tt, redrawn)))
remove-RemovesOnly_example =
    remove-RemovesOnly json ssl (λ text. some dot) (λ text. text) desk desk two_devices
      two_devices-shown refl

abbrev later : List (Desk × Event)
later = (desk, to_main (command 1003)) ∷ []

two_devices-no_exit : two_devices.exit_code ≡ none
unfolding fresh_shell
two_devices-no_exit = refl

message_loop-Ends_example :
    (message_loop json ssl
        (λ text. some dot)
        (λ text. text)
        true
        ((desk, to_main close) ∷ later)
        two_devices
      ≡ message_loop json ssl
          (λ text. some dot)
          (λ text. text)
          true
          later
          (record two_devices { visible = false }))
    × (t : Shell) × (message_loop json ssl
          (λ text. some dot)
          (λ text. text)
          true
          ((desk, to_main (command 2002)) ∷ later)
          two_devices
        ≡ (ok (some 0), t))
    × (t.stopped ≡ true)
    × (t.engine ≡ two_devices.engine)
    × (t.tray_icon ≡ false)
    × (t.qr_windows ≡ [])
    × (t.scanner.running ≡ false)
message_loop-Ends_example =
    message_loop-Ends json ssl (λ text. some dot) (λ text. text) true desk later two_devices refl
      two_devices-no_exit
