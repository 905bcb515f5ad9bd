-- ===== src/Mesh/Inbox.antt =====
-- What arrives: verify_packet_signature, decrypt_packet_payload and what on_packet_received calls of
-- the desktop (src/mesh_engine.cpp), in the build for Windows.
pub mod Dispatch
pub mod Trust
use rin_windows.Base.{
  ℕ, Str, lit, str_eq, is_empty, starts_with, ℤ, pos, negsuc, to_string, Bool, true, false, not,
  ◌&&◌, ◌||◌, Option, none, some, [], ◌∷◌, ◌++◌, Result, ok, err, what, crypto_exception, length,
  take, leb, ltb, if◌then◌else◌, ◌>>=◌,
}
use rin_windows.Base.Dict.{lookup}
use rin_windows.Protocol.{
  MeshPacket, PacketType, hello, join_request, join_accept, clipboard_sync, browser_handoff,
  file_start, file_chunk, file_complete, revocation, heartbeat, ack,
}
use rin_windows.Protocol.Names.{packet_type_name}
use rin_windows.Protocol.Json.{JsonLib}
use rin_windows.Crypto.OpenSsl.{OpenSsl, Bytes}
use rin_windows.Crypto.Keys.{derive_peer_session_key, derive_mesh_encryption_key}
use rin_windows.Crypto.Payload.{decrypt_payload}
use rin_windows.Crypto.Signature.{verify}
use rin_windows.Audit.{Entry}
use rin_windows.Audit.Entries.{
  ecdh_decryption_success, ecdh_decryption_failure, broadcast_decryption_success,
  broadcast_decryption_failure, signature_verification_entry,
}
use rin_windows.World.{World, ReceivedFileRecord, audit, log_event}
use rin_windows.Files.Storage.{FileIo}
use rin_windows.Files.Receive.{handle_file_start, handle_file_chunk}
use rin_windows.Files.Complete.{handle_file_complete}
use rin_windows.Mesh.Devices.{forget_device, heartbeat_from}

-- The answers of the desktop, the file system and the database to one packet.
pub record Surroundings : Type 0 where
  pub now : ℤ
  pub open_clipboard : Bool
  pub global_alloc : Bool
  pub global_lock : Bool
  pub set_clipboard_data : Bool
  -- what ShellExecuteA returns
  pub shell_execute : ℤ
  pub files : FileIo
  pub sqlite : Option Str

-- The callback that the constructor gives to the file transfer.
unfoldable pub report_file : ℤ → ReceivedFileRecord → World → World
unfolding log_event
report_file now rec w =
    let about = lit "File \"" ++ (rec.file_name ++ (lit "\" from " ++ rec.sender_name)) in
    if is_empty rec.local_file_path
    then log_event now (about ++ lit " FAILED (incomplete or integrity check failed)") w
    else (let v = log_event now (about ++ (lit " saved -> " ++ rec.local_file_path)) w in
        record v {
          commands =
              v.commands ++ (lit "explorer /select,\"" ++ (rec.local_file_path ++ lit "\"")) ∷ [];
        })

unfoldable pub set_clipboard : Surroundings → Str → World → World
unfolding log_event
set_clipboard s plain w =
    if s.global_alloc && s.global_lock
    then if s.set_clipboard_data
      then record w { clipboard = some plain }
      else log_event s.now (lit "[WARN] Clipboard write failed (SetClipboardData returned NULL)") w
    else w

-- EmptyClipboard comes before the new text.
unfoldable pub write_clipboard : Surroundings → Str → World → World
unfolding set_clipboard
write_clipboard s plain w =
    if not (is_empty plain) && s.open_clipboard
    then set_clipboard s plain (record w { clipboard = none })
    else w

unfoldable pub looks_like_url : Str → Bool
unfolding starts_with lit
looks_like_url plain =
    starts_with plain (lit "http://")
    || starts_with plain (lit "https://")
    || starts_with plain (lit "ftp://")

-- ShellExecuteA reports a failure by a number of at most 32.
abbrev pub shell_failed : ℤ → Bool
shell_failed (pos n) = leb n 32
shell_failed (negsuc n) = true

unfoldable pub open_url : Surroundings → Str → World → World
unfolding looks_like_url log_event
open_url s plain w =
    if looks_like_url plain
    then (let v : World = record w { opened = w.opened ++ plain ∷ [] } in
        if shell_failed s.shell_execute
        then log_event s.now
            (lit "[WARN] Failed to open URL in browser (ShellExecute returned "
              ++ (to_string s.shell_execute ++ lit ")"))
            v
        else v)
    else log_event s.now
        (lit "[WARN] URL handoff payload doesn't look like a URL, skipping browser open: "
          ++ take 60 plain)
        w

module _ (O : OpenSsl) where
  abbrev pub signature_valid : MeshPacket → Bool
  signature_valid packet =
      not (is_empty packet.sender_key) && verify O packet.payload packet.signature packet.sender_key

  unfoldable pub verify_packet_signature : ℤ → MeshPacket → World → Bool × World
  unfolding audit
  verify_packet_signature now packet w =
      let valid = signature_valid packet in
      (
        valid,
        audit
            (signature_verification_entry now valid packet.sender_name packet.sender_key
              packet.sequence)
            w,
      )

  -- Whether the packet names this device and its sender.
  unfoldable pub is_targeted : MeshPacket → World → Bool
  is_targeted packet w = elim packet.target_key [
    | none ↦ false
    | some key ↦ str_eq key w.identity.local_public_key && not (is_empty packet.sender_key)
  ]

  unfoldable pub peer_plain : MeshPacket → World → Result Str
  peer_plain packet w = do
    peer_key ←
        derive_peer_session_key O w.identity.local_private_key packet.sender_key
          (some packet.session_id)
    decrypt_payload O packet.payload peer_key

  unfoldable pub peer_logged : ℤ → MeshPacket → Result Str → World → Result Str × World
  unfolding audit
  peer_logged now p (ok plain) w = (
    ok plain,
    audit (ecdh_decryption_success now p.sequence p.sender_name p.sender_key p.session_id) w,
  )
  peer_logged now p (err e) w = (
    err e,
    audit (ecdh_decryption_failure now p.sequence p.sender_name p.sender_key p.session_id (what e))
        w,
  )

  unfoldable pub broadcast_logged : ℤ → MeshPacket → Result Str → World → Result Str × World
  unfolding audit
  broadcast_logged now p (ok plain) w = (
    ok plain,
    audit (broadcast_decryption_success now p.sequence (packet_type_name p.type) p.sender_name) w,
  )
  broadcast_logged now p (err e) w = (
    err e,
    audit
        (broadcast_decryption_failure now p.sequence (packet_type_name p.type) p.sender_name
          (what e))
        w,
  )

  -- The derivation stands before the `try`: its exception is not logged.
  unfoldable pub broadcast_plain : ℤ → MeshPacket → Result Bytes → World → Result Str × World
  unfolding broadcast_logged
  broadcast_plain now packet (ok mesh_key) w =
      broadcast_logged now packet (decrypt_payload O packet.payload mesh_key) w
  broadcast_plain now packet (err e) w = (err e, w)

  unfoldable pub decrypt_sealed : ℤ → MeshPacket → Bool → World → Result Str × World
  unfolding peer_logged peer_plain broadcast_plain
  decrypt_sealed now packet true w = peer_logged now packet (peer_plain packet w) w
  decrypt_sealed now packet false w =
      broadcast_plain now packet
        (derive_mesh_encryption_key O w.identity.mesh_secret w.identity.mesh_name) w

  unfoldable pub is_plaintext : PacketType → Bool
  is_plaintext heartbeat = true
  is_plaintext hello = true
  is_plaintext _ = false

  unfoldable pub decrypt_packet_payload : ℤ → MeshPacket → World → Result Str × World
  unfolding is_plaintext decrypt_sealed is_targeted
  decrypt_packet_payload now packet w =
      if is_plaintext packet.type
      then (ok packet.payload, w)
      else decrypt_sealed now packet (is_targeted packet w) w
