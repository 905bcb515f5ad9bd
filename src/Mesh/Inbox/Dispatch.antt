-- ===== src/Mesh/Inbox/Dispatch.antt =====
-- on_packet_received (src/mesh_engine.cpp): the switch on a decrypted packet.
use rin_windows.Base.{Str, lit, [], ◌++◌, Result, ok, err, length, take, ltb, if◌then◌else◌}
use rin_windows.Base.Dict.{lookup}
use rin_windows.Protocol.{
  MeshPacket, PacketType, hello, join_request, join_accept, clipboard_sync, browser_handoff,
  file_start, file_chunk, file_complete, revocation, heartbeat, ack,
}
use rin_windows.Protocol.Json.{JsonLib}
use rin_windows.Crypto.OpenSsl.{OpenSsl}
use rin_windows.World.{World, log_event}
use rin_windows.Files.Receive.{handle_file_start, handle_file_chunk}
use rin_windows.Files.Complete.{handle_file_complete}
use rin_windows.Mesh.Devices.{forget_device, heartbeat_from}
use rin_windows.Mesh.Inbox.{
  Surroundings, report_file, write_clipboard, open_url, decrypt_packet_payload,
}

module _ (J : JsonLib) (O : OpenSsl) (downloads : Str) (s : Surroundings) where
  -- The switch, on a decrypted text.
  unfoldable pub dispatch : PacketType → MeshPacket → Str → World → Result (Unit {0}) × World
  unfolding log_event write_clipboard open_url report_file forget_device heartbeat_from
  dispatch clipboard_sync packet plain w = (
    ok tt,
    write_clipboard s plain (
        log_event s.now
          (lit "Clipboard synced from "
            ++ (packet.sender_name
                ++ (lit ": \""
                    ++ (take 60 plain
                        ++ ((if ltb 60 (length plain) then lit "..." else []) ++ lit "\"")))))
          w),
  )
  dispatch browser_handoff packet plain w = (
    ok tt,
    open_url s plain (
        log_event s.now
          (lit "URL handoff received from " ++ (packet.sender_name ++ (lit ": " ++ plain))) w),
  )
  dispatch file_start packet plain w = (
    ok tt,
    handle_file_start downloads J s.files s.now plain packet.sender_key packet.sender_name w,
  )
  dispatch file_chunk packet plain w = handle_file_chunk O J plain w
  dispatch file_complete packet plain w =
      handle_file_complete O downloads (report_file s.now) s.files s.now J plain packet.sender_name
        w
  dispatch revocation packet plain w = (
    ok tt,
    log_event s.now (lit "Device revoked from mesh: " ++ take 8 plain)
        (forget_device s.now s.sqlite (lit "Failed to persist remote revocation: ") plain w),
  )
  dispatch heartbeat packet plain w =
      (ok tt, heartbeat_from packet.sender_key (lookup packet.sender_key w.devices) w)
  dispatch join_request packet plain w =
      (ok tt, log_event s.now (lit "Join handshake packet from " ++ packet.sender_name) w)
  dispatch join_accept packet plain w =
      (ok tt, log_event s.now (lit "Join handshake packet from " ++ packet.sender_name) w)
  dispatch hello packet plain w =
      (ok tt, log_event s.now (lit "Mesh peer discovery from " ++ packet.sender_name) w)
  dispatch ack packet plain w = (ok tt, w)

  -- A text, or an exception: what was to be decrypted is dropped.
  unfoldable pub deliver : MeshPacket → Result Str × World → Result (Unit {0}) × World
  unfolding dispatch
  deliver packet (ok plain, w) = dispatch packet.type packet plain w
  deliver packet (err e, w) = (ok tt, w)

  unfoldable pub on_packet_received : MeshPacket → World → Result (Unit {0}) × World
  unfolding deliver decrypt_packet_payload
  on_packet_received packet w = deliver packet (decrypt_packet_payload O s.now packet w)
