-- ===== src/Shell/Messages.antt =====
-- The messages of the main window (src/win32_shell.cpp), and what their handlers call.
use rin_windows.Base.{
  ℕ, ◌==◌, Str, lit, pos, Bool, true, false, Option, none, some, ◌++◌, or_throw, json_exception,
  if◌then◌else◌,
}
use rin_windows.Base.Act.{Act, pure, lift, modify, ◌>>=◌, ◌>>◌}
use rin_windows.Protocol.{QrJoinToken}
use rin_windows.Protocol.Json.{JsonLib}
use rin_windows.Protocol.Payloads.{token_from_json}
use rin_windows.Crypto.OpenSsl.{OpenSsl}
use rin_windows.Device.{TrustedDevice}
use rin_windows.QrCode.{Symbol}
use rin_windows.Mesh.Devices.{trusted_devices}
use rin_windows.Mesh.Outbox.{revoke_device, build_join_token_json}
use rin_windows.Mesh.Identity.Handshake.{complete_join_handshake}
use rin_windows.Shell.Labels.{to_wstring}
use rin_windows.Shell.Symbols.{qr_to_hbitmap}
use rin_windows.Shell.{
  Shell, Desk, Message, on_engine, box, refresh_device_list, show_symbol, close_qr, start_scan,
  restore_from_tray, on_destroy, quit_clicked, on_tray, chosen, taskbar_created, timer, command,
  tray, decoded, close, destroy, other,
}

-- `wide` is MultiByteToWideChar on a text that is not empty.
module _ (J : JsonLib) (O : OpenSsl) (qrencode : Str → Option Symbol) (wide : Str → Str) where
  unfoldable pub show_qr_window : Desk → Act Shell (Unit {0})
  unfolding show_symbol
  show_qr_window d = do
    modify (λ (s : Shell). record s { qr_bitmap = none })
    json ← on_engine (build_join_token_json J O d.out)
    text ← lift (or_throw json json_exception)
    modify (show_symbol d.window (qr_to_hbitmap qrencode d.dib_section text (pos 6)))

  unfoldable pub on_add_device_clicked : Desk → Act Shell (Unit {0})
  unfolding show_qr_window start_scan
  on_add_device_clicked d = show_qr_window d >> modify (start_scan d.opening)

  unfoldable pub confirmed : Desk → TrustedDevice → Bool → Act Shell (Unit {0})
  unfolding refresh_device_list
  confirmed d device false = pure tt
  confirmed d device true =
      on_engine (revoke_device J O d.out device.public_key) >> modify (refresh_device_list wide)

  unfoldable pub remove_chosen : Desk → Option TrustedDevice → Act Shell (Unit {0})
  unfolding confirmed to_wstring
  remove_chosen d none = pure tt
  remove_chosen d (some device) =
      if device.is_self
      then modify (box (lit "You can't remove this device (it's this PC)."))
      else modify
          (box (lit "Remove \"" ++ (to_wstring wide device.name ++ lit "\" from the mesh?")))
        >> confirmed d device d.answer_yes

  unfoldable pub on_remove_device_clicked : Desk → Act Shell (Unit {0})
  unfolding remove_chosen chosen
  on_remove_device_clicked d s = remove_chosen d (chosen s.selected (trusted_devices s.engine)) s

  -- The ids of the buttons and of the menu.
  unfoldable pub on_command : ℕ → Desk → Act Shell (Unit {0})
  unfolding on_add_device_clicked on_remove_device_clicked quit_clicked
  on_command id d =
      if id == 1002
      then on_add_device_clicked d
      else if id == 1003
      then on_remove_device_clicked d
      else if id == 2001
      then modify restore_from_tray
      else if id == 2002
      then modify quit_clicked
      else pure tt

  -- What the handshake answers is not looked at.
  unfoldable pub on_token : Desk → Option QrJoinToken → Act Shell (Unit {0})
  unfolding close_qr
  on_token d none = modify (box (lit "Scanned QR is not a valid Rin join token."))
  on_token d (some token) = on_engine (complete_join_handshake J O d.out token) >>= λ joined.
      modify (λ s. box (lit "Joined successfully!") (close_qr s.qr_hwnd s))

  unfoldable pub handle_main : Message → Desk → Act Shell (Unit {0})
  unfolding on_command on_token on_tray
  handle_main taskbar_created d = modify (λ s. record s { tray_icon = true })
  handle_main (timer id) d = modify (λ s. if id == 1 then refresh_device_list wide s else s)
  handle_main (command id) d = on_command id d
  handle_main (tray e) d = modify (on_tray e)
  handle_main (decoded none) d = pure tt
  handle_main (decoded (some text)) d = on_token d (token_from_json J d.out.now text)
  handle_main close d = modify (λ s. record s { visible = false })
  handle_main destroy d = modify on_destroy
  handle_main other d = pure tt
