-- ===== src/Shell/Quitting.antt =====
-- How the message loop of src/win32_shell.cpp ends.
use rin_windows.Base.{
  ℕ, Str, Bool, true, false, ◌≡◌, ap, ◌∙◌, Option, none, some, List, [], ◌∷◌, ok, arith,
}
use rin_windows.Base.Act.{◌>>=◌}
use rin_windows.Protocol.Json.{JsonLib}
use rin_windows.Crypto.OpenSsl.{OpenSsl}
use rin_windows.QrCode.{Symbol}
use rin_windows.Camera.{CameraQrScanner, stop}
use rin_windows.Shell.{Shell, Desk, command, close, quit_clicked, on_destroy, remove_tray_icon}
use rin_windows.Shell.Messages.{on_command, handle_main}
use rin_windows.Shell.Program.{Event, to_main, leave, unless_left, dispatch_message, message_loop}

module _ (J : JsonLib) (O : OpenSsl) (qrencode : Str → Option Symbol) (wide : Str → Str)
    (released : Bool) where
  -- No message is taken once the exit code is set.
  message_loop-left :
      (events : List (Desk × Event)) (code : ℕ) (s : Shell)
      → s.exit_code ≡ some code
      → message_loop J O qrencode wide released events s
        ≡ leave J O qrencode wide released (some code) s
  unfolding message_loop leave unless_left
  message_loop-left [] code s e = ap (λ (o : Option ℕ). leave J O qrencode wide released o s) e
  message_loop-left ((d, event) ∷ events) code s e =
      ap
        (λ (o : Option ℕ).
          unless_left J O qrencode wide released o
            (dispatch_message J O qrencode wide d event >>= λ done.
              message_loop J O qrencode wide released events)
            s)
        e

  message_loop-next :
      (d : Desk) (event : Event) (events : List (Desk × Event)) (s : Shell)
      → s.exit_code ≡ none
      → message_loop J O qrencode wide released ((d, event) ∷ events) s
        ≡ (dispatch_message J O qrencode wide d event >>= λ done.
              message_loop J O qrencode wide released events)
            s
  unfolding message_loop unless_left
  message_loop-next d event events s e =
      ap
        (λ (o : Option ℕ).
          unless_left J O qrencode wide released o
            (dispatch_message J O qrencode wide d event >>= λ done.
              message_loop J O qrencode wide released events)
            s)
        e

  stop-running : (s : CameraQrScanner) → (stop released s).running ≡ false
  unfolding stop
  stop-running s = ground arith

  quit_clicked_lem :
      (s : Shell)
      → s.main_hwnd ≡ true
      → ((quit_clicked s).exit_code ≡ some 0)
        × ((quit_clicked s).tray_icon ≡ false)
        × ((quit_clicked s).stopped ≡ true)
        × ((quit_clicked s).qr_windows ≡ [])
        × ((quit_clicked s).engine ≡ s.engine)
  unfolding quit_clicked on_destroy remove_tray_icon
  quit_clicked_lem s made = ground (arith, made)

  -- While the loop runs, the close button of the main window hides it and the loop goes on with the
  -- messages that follow. Quit in the menu of the tray icon ends it with exit code 0, whatever
  -- messages follow: the engine has been told to stop and nothing else has been done to it, the
  -- icon and the windows with a symbol are gone, and the scanner does not run.
  pub message_loop-Ends :
      (d : Desk) (events : List (Desk × Event)) (s : Shell)
      → s.main_hwnd ≡ true
      → s.exit_code ≡ none
      → (message_loop J O qrencode wide released ((d, to_main close) ∷ events) s
          ≡ message_loop J O qrencode wide released events (record s { visible = false }))
        × (t : Shell) × (message_loop J O qrencode wide released
              ((d, to_main (command 2002)) ∷ events)
              s
            ≡ (ok (some 0), t))
        × (t.stopped ≡ true)
        × (t.engine ≡ s.engine)
        × (t.tray_icon ≡ false)
        × (t.qr_windows ≡ [])
        × (t.scanner.running ≡ false)
  unfolding dispatch_message handle_main on_command leave
  message_loop-Ends d events s made runs =
      let (code, icon, stopped, windows, engine) = quit_clicked_lem s made in
      (
        message_loop-next d (to_main close) events s runs,
        record (quit_clicked s) { scanner = stop released (quit_clicked s).scanner },
        message_loop-next d (to_main (command 2002)) events s runs
            ∙ message_loop-left events 0 (quit_clicked s) code,
        stopped,
        engine,
        icon,
        windows,
        stop-running (quit_clicked s).scanner,
      )
