-- ===== src/Mesh/SendFile.antt =====
-- FileTransferEngine::send_file (src/file_transfer.cpp), given the identity and the transport of the
-- engine. The progress callback is not modelled.
pub mod Counts
pub mod Delivered
pub mod Rounds
pub mod Sent
pub mod Texts
pub mod Whole
use rin_windows.Base.{
  ℕ, zero, suc, ◌+◌, ◌/◌, Str, lit, ℤ, pos, negsuc, to_string, Bool, true, false, Option, none,
  some, List, [], ◌∷◌, ◌++◌, length, take, drop, Result, ok, err, or_throw, json_exception,
  if◌then◌else◌, eqb_ℤ,
}
use rin_windows.Base.Act.{Act, pure, lift, gets, modify, resume, ◌>>=◌, ◌>>◌}
use rin_windows.Base.Dict.{lookup}
use rin_windows.Protocol.{
  PacketType, file_start, file_chunk, file_complete, FileTransferMetadata, FileChunkPayload,
}
use rin_windows.Protocol.Json.{JsonLib}
use rin_windows.Protocol.Payloads.{metadata_to_json, chunk_to_json}
use rin_windows.Crypto.OpenSsl.{OpenSsl, Bytes}
use rin_windows.Crypto.Base64.{base64_encode}
use rin_windows.Crypto.Hex.{generate_ephemeral_token}
use rin_windows.Crypto.Keys.{derive_peer_session_key, derive_mesh_encryption_key}
use rin_windows.Audit.{info, security_warning}
use rin_windows.Device.{MeshIdentity, TrustedDevice}
use rin_windows.World.{World, log_event}
use rin_windows.Files.Paths.{filename, mime_from_extension}
use rin_windows.Files.Storage.{sha256_hex}
use rin_windows.Files.Receive.{routing}
use rin_windows.Base.{as_int}
use rin_windows.Mesh.Outbox.{Outside, draw, new_session_id, seal, packet_of, transmit}

unfoldable pub next_transfer_sequence : Act World ℤ
next_transfer_sequence w =
    (ok (pos w.transfer_sequence), record w { transfer_sequence = suc w.transfer_sequence })

-- static_cast<int>((total_size + kFileChunkBytes - 1) / kFileChunkBytes), or 1 for 0
unfoldable pub chunk_count : ℕ → ℤ
unfolding as_int
chunk_count total_size =
    let count = as_int ((total_size + 65535) / 65536) in
    if eqb_ℤ count (pos 0) then pos 1 else count

-- `catch (...)`: the mesh key where the peer key cannot be derived
unfoldable pub transfer_key : OpenSsl → MeshIdentity → Result Bytes → Result Bytes
transfer_key O identity (ok key) = ok key
transfer_key O identity (err e) =
    derive_mesh_encryption_key O identity.mesh_secret identity.mesh_name

-- The JSON of the last message is put together by hand.
unfoldable pub complete_json : Str → Str → Str
complete_json file_id checksum =
    lit "{\"fileId\":\"" ++ (file_id ++ (lit "\",\"checksum\":\"" ++ (checksum ++ lit "\"}")))

abbrev pub metadata_of : Str → Str → Bytes → Str → FileTransferMetadata
metadata_of file_id local_path content checksum = record {
  file_id = file_id;
  file_name = filename local_path;
  file_size = pos (length content);
  mime_type = mime_from_extension local_path;
  total_chunks = chunk_count (length content);
  chunk_size = pos 65536;
  sha256_checksum = some checksum;
}

module _ (J : JsonLib) (O : OpenSsl) (out : Outside) (target : TrustedDevice) (ip : Str) where
  -- A sealed text on its way, after the session id is known.
  unfoldable pub send_part : PacketType → Str → (Str × Str) → Act World (Option ℤ)
  unfolding next_transfer_sequence packet_of transmit
  send_part type session_id sealed = do
    sequence ← next_transfer_sequence
    packet ← gets (packet_of J O out type session_id sequence (some target.public_key) sealed)
    transmit J O out ip target.port packet

  -- The answer to a packet: without one the transfer is aborted.
  unfoldable pub go_on : Str → Option ℤ → Act World Bool → Act World Bool
  unfolding routing
  go_on complaint none more w =
      (ok false, routing out.now security_warning complaint (some target.name) w)
  go_on complaint (some latency) more w = more w

  unfoldable pub send_chunk : Str → Str → Bytes → ℤ → ℕ → Bytes → Act World (Option ℤ)
  unfolding seal send_part
  send_chunk file_id session_id key total index raw = do
    json ← lift (
        or_throw
          (chunk_to_json J (record {
            file_id = file_id;
            chunk_index = pos index;
            total_chunks = total;
            data_base64 = base64_encode O raw;
          }))
          json_exception)
    sealed ← seal J O out json key
    send_part file_chunk session_id sealed

  -- The loop: `left` chunks are announced and not yet sent, `rest` is not yet read.
  unfoldable pub send_chunks : Str → Str → Bytes → ℤ → ℕ → ℕ → Bytes → Act World Bool
  unfolding send_chunk go_on
  send_chunks file_id session_id key total zero index rest = pure true
  send_chunks file_id session_id key total (suc left) index [] = pure true
  send_chunks file_id session_id key total (suc left) index (b ∷ rest) =
      send_chunk file_id session_id key total index (take 65536 (b ∷ rest)) >>= λ answer.
      go_on
        (lit "FILE_CHUNK "
          ++ (to_string (pos index) ++ (lit "/" ++ (to_string total ++ lit " failed -- aborting"))))
        answer (send_chunks file_id session_id key total left (suc index) (drop 65536 (b ∷ rest)))

  unfoldable pub count_of : ℤ → ℕ
  count_of (pos n) = n
  count_of (negsuc n) = 0

  -- After the chunks; whether the last message arrives is not looked at.
  unfoldable pub finish : Str → Str → Bytes → FileTransferMetadata → Str → Bool → Act World Bool
  unfolding seal send_part complete_json routing
  finish file_id session_id key meta checksum false = pure false
  finish file_id session_id key meta checksum true = do
    sealed ← seal J O out (complete_json file_id checksum) key
    answer ← send_part file_complete session_id sealed
    modify (
        routing out.now info
          (lit "Sent file \""
            ++ (meta.file_name
                ++ (lit "\" ("
                    ++ (to_string meta.file_size
                        ++ (lit " bytes, "
                            ++ (to_string meta.total_chunks
                                ++ (lit " chunks) to " ++ target.name)))))))
          (some target.name))
    pure true

  unfoldable pub send_content : Str → Bytes → Act World Bool
  unfolding count_of draw transfer_key sha256_hex seal new_session_id send_part go_on send_chunks
      finish
  send_content local_path content = do
    k ← draw
    file_id ← lift (generate_ephemeral_token O (out.random k))
    identity ← gets (λ w. w.identity)
    key ← lift (
        transfer_key O identity
          (derive_peer_session_key O identity.local_private_key target.public_key none))
    checksum ← gets (λ w. sha256_hex O local_path w.disk)
    let meta = metadata_of file_id local_path content checksum
    json ← lift (or_throw (metadata_to_json J meta) json_exception)
    sealed ← seal J O out json key
    session_id ← new_session_id J O out
    answer ← send_part file_start session_id sealed
    go_on (lit "FILE_START failed to reach " ++ (target.name ++ lit " -- aborting transfer")) answer
        (send_chunks file_id session_id key meta.total_chunks (count_of meta.total_chunks) 0 content
          >>= finish file_id session_id key meta checksum)

  unfoldable pub send_opened : Str → Option Bytes → Act World Bool
  unfolding send_content routing
  send_opened local_path none w = (
    ok false,
    routing out.now security_warning (lit "File send aborted: cannot open " ++ local_path) none w,
  )
  send_opened local_path (some content) w = send_content local_path content w

module _ (J : JsonLib) (O : OpenSsl) (out : Outside) where
  unfoldable pub send_file_to : Str → TrustedDevice → Option Str → Act World Bool
  unfolding send_opened routing
  send_file_to local_path target none w = (
    ok false,
    routing out.now security_warning (lit "File send aborted: target has no IP") (some target.name)
        w,
  )
  send_file_to local_path target (some ip) w =
      send_opened J O out target ip local_path (lookup local_path w.disk) w

  -- FileTransferEngine::send_file
  unfoldable pub send_file : Str → TrustedDevice → Act World Bool
  unfolding send_file_to
  send_file local_path target = send_file_to local_path target target.ip_address

  unfoldable pub report_sent : Str → Bool → World → World
  unfolding log_event
  report_sent local_path sent w =
      log_event out.now
        ((if sent then lit "File send complete: " else lit "File send failed: ") ++ local_path) w

  -- MeshEngine::send_file, with the work of its thread.
  unfoldable pub send_file_to_device : Str → Option TrustedDevice → Act World (Unit {0})
  unfolding send_file report_sent log_event
  send_file_to_device local_path none =
      modify (log_event out.now (lit "File send failed: target device not found"))
  send_file_to_device local_path (some target) =
      send_file local_path target >>= λ sent. modify (report_sent local_path sent)
