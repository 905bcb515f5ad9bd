-- ===== src/Mesh/Keyed/Methods.antt =====
-- The browser handoff, the revocation up to its last steps, the join token and the sending of a file
-- leave the table, the identity and the store alone (src/mesh_engine.cpp, src/file_transfer.cpp).
use rin_windows.Base.{
  ℕ, zero, suc, Str, ℤ, Bool, true, false, Option, none, some, [], ◌∷◌, take, drop,
}
use rin_windows.Base.Act.{Act, modify}
use rin_windows.Base.Act.Keeps.{Keeps, keeps_rules, bind-Keeps, pure-Keeps}
use rin_windows.Base.Dict.{lookup}
use rin_windows.Protocol.{PacketType, FileTransferMetadata}
use rin_windows.Protocol.Json.{JsonLib}
use rin_windows.Crypto.OpenSsl.{OpenSsl, Bytes}
use rin_windows.Device.{TrustedDevice}
use rin_windows.World.{World, audit, log_event}
use rin_windows.Files.Receive.{routing}
use rin_windows.Mesh.Outbox.{
  Outside, handoff_to, handoff_to_other, handoff_key, handoff_all, handoff, send_browser_handoff,
  revocation_to, build_join_token_json,
}
use rin_windows.Mesh.SendFile.{
  next_transfer_sequence, send_part, go_on, send_chunk, send_chunks, finish, send_content,
  send_opened, send_file_to, send_file, report_sent, send_file_to_device,
}
use rin_windows.Mesh.Keyed.Senders.{
  SameBase, SameBase-trans, draw-Keeps, new_session_id-Keeps, mesh_key-Keeps, seal-Keeps,
  transmit-Keeps, send_sealed-Keeps, if_reachable-Keeps, to_each-Keeps, log_event-Keeps,
}

module _ (v : World) (J : JsonLib) (O : OpenSsl) (out : Outside) where
  handoff_to-Keeps :
      (session_id : Str) (sealed : Str × Str) (device : TrustedDevice)
      → Keeps (SameBase v) (handoff_to J O out session_id sealed device)
  unfolding handoff_to
  handoff_to-Keeps session_id sealed device = search (if_reachable-Keeps, send_sealed-Keeps)

  handoff_to_other-Keeps :
      (session_id : Str) (sealed : Str × Str) (device : TrustedDevice)
      → Keeps (SameBase v) (handoff_to_other J O out session_id sealed device)
  unfolding handoff_to_other
  handoff_to_other-Keeps session_id sealed device = search (keeps_rules, handoff_to-Keeps)

  handoff_key-Keeps :
      (session_id : Str) (target : Option TrustedDevice)
      → Keeps (SameBase v) (handoff_key J O out session_id target)
  unfolding handoff_key
  handoff_key-Keeps session_id none = mesh_key-Keeps v J O out
  handoff_key-Keeps session_id (some target) = record { after = λ w h. h }

  handoff_all-Keeps :
      (session_id : Str) (sealed : Str × Str) (target : Option TrustedDevice)
      → Keeps (SameBase v) (handoff_all J O out session_id sealed target)
  unfolding handoff_all
  handoff_all-Keeps session_id sealed none =
      search (keeps_rules, to_each-Keeps, handoff_to_other-Keeps) depth 10
  handoff_all-Keeps session_id sealed (some target) = handoff_to-Keeps session_id sealed target

  handoff-Keeps :
      (url : Str) (target : Option TrustedDevice) → Keeps (SameBase v) (handoff J O out url target)
  unfolding handoff
  handoff-Keeps url target =
      search
        (
          keeps_rules, new_session_id-Keeps, handoff_key-Keeps, seal-Keeps, handoff_all-Keeps,
          log_event-Keeps,
        )
        depth 12

  pub send_browser_handoff-Keeps :
      (url : Str) (target : Option Str)
      → Keeps (SameBase v) (send_browser_handoff J O out url target)
  unfolding send_browser_handoff
  send_browser_handoff-Keeps url target = search (keeps_rules, handoff-Keeps)

  pub revocation_to-Keeps :
      (public_key : Str) (sealed : Str × Str) (device : TrustedDevice)
      → Keeps (SameBase v) (revocation_to J O out public_key sealed device)
  unfolding revocation_to
  revocation_to-Keeps public_key sealed device =
      search (keeps_rules, new_session_id-Keeps, if_reachable-Keeps, send_sealed-Keeps) depth 10

  pub build_join_token_json-Keeps : Keeps (SameBase v) (build_join_token_json J O out)
  unfolding build_join_token_json
  build_join_token_json-Keeps = search (keeps_rules, draw-Keeps) depth 10

  module _ (target : TrustedDevice) (ip : Str) where
    next_transfer_sequence-Keeps : Keeps (SameBase v) next_transfer_sequence
    unfolding next_transfer_sequence
    next_transfer_sequence-Keeps = record { after = λ w h. h }

    send_part-Keeps :
        (type : PacketType) (session_id : Str) (sealed : Str × Str)
        → Keeps (SameBase v) (send_part J O out target ip type session_id sealed)
    unfolding send_part
    send_part-Keeps type session_id sealed =
        search (keeps_rules, next_transfer_sequence-Keeps, transmit-Keeps) depth 10

    go_on-Keeps :
        (complaint : Str) (answer : Option ℤ) (more : Act World Bool)
        → Keeps (SameBase v) more
        → Keeps (SameBase v) (go_on J O out target ip complaint answer more)
    unfolding go_on routing audit
    go_on-Keeps complaint none more h = record { after = λ w k. k }
    go_on-Keeps complaint (some latency) more h = record { after = λ w k. h.after w k }

    send_chunk-Keeps :
        (file_id session_id : Str) (key : Bytes) (total : ℤ) (index : ℕ) (raw : Bytes)
        → Keeps (SameBase v) (send_chunk J O out target ip file_id session_id key total index raw)
    unfolding send_chunk
    send_chunk-Keeps file_id session_id key total index raw =
        search (keeps_rules, seal-Keeps, send_part-Keeps) depth 10

    send_chunks-Keeps :
        (file_id session_id : Str) (key : Bytes) (total : ℤ) (left index : ℕ) (rest : Bytes)
        → Keeps
            (SameBase v)
            (send_chunks J O out target ip file_id session_id key total left index rest)
    unfolding send_chunks
    send_chunks-Keeps file_id session_id key total zero index rest = pure-Keeps true
    send_chunks-Keeps file_id session_id key total (suc left) index [] = pure-Keeps true
    send_chunks-Keeps file_id session_id key total (suc left) index (b ∷ rest) =
        bind-Keeps
          (send_chunk J O out target ip file_id session_id key total index (take 65536 (b ∷ rest)))
          _ (send_chunk-Keeps file_id session_id key total index (take 65536 (b ∷ rest)))
          λ answer. go_on-Keeps _ answer _ (
            send_chunks-Keeps file_id session_id key total left (suc index) (drop 65536 (b ∷ rest)))

    routed-Keeps :
        (entry : World → World)
        → ((w : World) → SameBase w (entry w))
        → Keeps (SameBase v) (modify entry)
    routed-Keeps entry h = record { after = λ w k. SameBase-trans v w (entry w) k (h w) }

    finish-Keeps :
        (file_id session_id : Str) (key : Bytes) (meta : FileTransferMetadata) (checksum : Str)
        (sent : Bool)
        → Keeps (SameBase v) (finish J O out target ip file_id session_id key meta checksum sent)
    unfolding finish routing audit
    finish-Keeps file_id session_id key meta checksum false = pure-Keeps false
    finish-Keeps file_id session_id key meta checksum true =
        search (keeps_rules, seal-Keeps, send_part-Keeps, routed-Keeps) depth 12

    send_content-Keeps :
        (local_path : Str) (content : Bytes)
        → Keeps (SameBase v) (send_content J O out target ip local_path content)
    unfolding send_content
    send_content-Keeps local_path content =
        search
          (
            keeps_rules, draw-Keeps, seal-Keeps, new_session_id-Keeps, send_part-Keeps, go_on-Keeps,
            send_chunks-Keeps, finish-Keeps,
          )
          depth 20

    send_opened-Keeps :
        (local_path : Str) (content : Option Bytes)
        → Keeps (SameBase v) (send_opened J O out target ip local_path content)
    unfolding send_opened routing audit
    send_opened-Keeps local_path none = record { after = λ w h. h }
    send_opened-Keeps local_path (some content) = record {
      after = (send_content-Keeps local_path content).after;
    }

  send_file_to-Keeps :
      (local_path : Str) (target : TrustedDevice) (ip : Option Str)
      → Keeps (SameBase v) (send_file_to J O out local_path target ip)
  unfolding send_file_to routing audit
  send_file_to-Keeps local_path target none = record { after = λ w h. h }
  send_file_to-Keeps local_path target (some ip) = record {
    after = λ w h. (send_opened-Keeps target ip local_path (lookup local_path w.disk)).after w h;
  }

  report_sent-Keeps :
      (local_path : Str) (sent : Bool)
      → Keeps (SameBase v) (modify (report_sent J O out local_path sent))
  unfolding report_sent log_event
  report_sent-Keeps local_path sent = record { after = λ w h. h }

  pub send_file_to_device-Keeps :
      (local_path : Str) (target : Option TrustedDevice)
      → Keeps (SameBase v) (send_file_to_device J O out local_path target)
  unfolding send_file_to_device send_file
  send_file_to_device-Keeps local_path none = log_event-Keeps v _ _
  send_file_to_device-Keeps local_path (some target) =
      bind-Keeps (send_file_to J O out local_path target target.ip_address) _
        (send_file_to-Keeps local_path target target.ip_address)
        λ sent. report_sent-Keeps local_path sent
