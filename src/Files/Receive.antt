-- ===== src/Files/Receive.antt =====
-- The receiving side of src/file_transfer.cpp. `on_received` is the callback of the constructor,
-- `downloads` what downloads_directory() returns, `now` what the clock says.
pub mod Reassembly
use rin_windows.Base.{as_int}
use rin_windows.Base.{
  ℕ, suc, ◌+◌, ◌-◌, ◌*◌, ◌%◌, ◌^◌, Str, lit, is_empty, str_eq, ℤ, pos, negsuc, eqb_ℤ, to_string,
  Bool, true, false, not, ◌||◌, Option, none, some, List, [], ◌∷◌, ◌++◌, length, take, replicate,
  Result, ok, err, or_throw, caught, json_exception, ltb, if◌then◌else◌, what, ◌>>=◌,
}
use rin_windows.Base.Dict.{Dict, lookup, insert, erase}
use rin_windows.Protocol.{FileTransferMetadata, FileChunkPayload}
use rin_windows.Protocol.Json.{JsonLib, value_text}
use rin_windows.Protocol.Payloads.{metadata_from_json, chunk_from_json}
use rin_windows.Crypto.OpenSsl.{OpenSsl, Bytes}
use rin_windows.Crypto.Base64.{base64_decode}
use rin_windows.Audit.{AuditLevel, info, security_warning, security_error, packet_routing, Entry}
use rin_windows.Audit.Entries.{plain}
use rin_windows.World.{World, InFlightReceive, ReceivedFileRecord, audit}
use rin_windows.Files.Paths.{stem, extension}
use rin_windows.Files.Storage.{FileIo, write_chunk, sha256_hex, remove, rename, copy}

-- MeshAuditLogger::instance().log(level, AuditCategory::PacketRouting, message, peer_name)
unfoldable pub routing : ℤ → AuditLevel → Str → Option Str → World → World
unfolding audit plain
routing now level message peer_name w = audit (plain now level packet_routing message peer_name) w

abbrev zeros : ℤ → Bytes
zeros (pos n) = replicate n 0
zeros (negsuc n) = []

-- static_cast<int64_t>(chunk_index) * kFileChunkBytes
abbrev pub chunk_offset : ℤ → ℤ
chunk_offset (pos i) = pos (i * 65536)
chunk_offset (negsuc i) = negsuc (i * 65536 + 65535)

-- Pre-allocation: the file is created empty, and its last byte written.
unfoldable pub preallocate : FileIo → Str → ℤ → Dict Bytes → Dict Bytes
preallocate io path size disk =
    if io.opens then insert path (if io.allocates then zeros size else []) disk else disk

-- received_chunks[i] = true
unfoldable pub mark : ℤ → List ℤ → List ℤ
mark i [] = i ∷ []
mark i (k ∷ ks) = if eqb_ℤ k i then k ∷ ks else k ∷ mark i ks

-- The temporary file, beside the real destination.
unfoldable pub temp_path_of : Str → Str → Str
temp_path_of downloads file_id = downloads ++ (lit "/.rin_recv_" ++ (file_id ++ lit ".tmp"))

module _ (downloads : Str) where
  unfoldable pub start_receive : FileIo → ℤ → FileTransferMetadata → Str → Str → World → World
  unfolding preallocate routing temp_path_of
  start_receive io now meta sender_key sender_name w =
      let temp_path = temp_path_of downloads meta.file_id in
      routing now info
        (lit "Receiving file \""
          ++ (meta.file_name
              ++ (lit "\" ("
                  ++ (to_string meta.file_size
                      ++ (lit " bytes, "
                          ++ (to_string meta.total_chunks
                              ++ (lit " chunks) from " ++ sender_name)))))))
        (some sender_name)
        (record w {
          disk = preallocate io temp_path meta.file_size w.disk;
          in_flight =
              insert meta.file_id
                (record {
                  metadata = meta;
                  sender_key = sender_key;
                  sender_name = sender_name;
                  temp_path = temp_path;
                  received_chunks = [];
                })
                w.in_flight;
        })

  unfoldable pub handle_file_start : JsonLib → FileIo → ℤ → Str → Str → Str → World → World
  unfolding routing
  handle_file_start J io now plain_json sender_key sender_name w =
      elim (metadata_from_json J plain_json) [
        | none ↦
            routing now security_warning
              (lit "FILE_START: malformed metadata JSON -- transfer ignored") (some sender_name) w
        | some meta ↦ start_receive io now meta sender_key sender_name w
      ]

-- The bytes go to the disk, and the index counts as received whether they arrived there or not:
-- a stream reports its errors by flags that nothing reads.
unfoldable pub store_chunk : Str → ℤ → InFlightReceive → Bytes → World → World
unfolding write_chunk mark
store_chunk file_id chunk_index receive raw_bytes w = record w {
  disk = write_chunk receive.temp_path (chunk_offset chunk_index) raw_bytes w.disk;
  in_flight =
      insert file_id (record receive { received_chunks = mark chunk_index receive.received_chunks })
        w.in_flight;
}

-- An exception of base64_decode is not caught here.
unfoldable pub stored : Str → ℤ → InFlightReceive → Result Bytes → World → Result (Unit {0}) × World
stored file_id chunk_index receive (ok raw_bytes) w =
    (ok tt, store_chunk file_id chunk_index receive raw_bytes w)
stored file_id chunk_index receive (err e) w = (err e, w)

module _ (O : OpenSsl) where
  unfoldable pub receive_chunk : FileChunkPayload → World → Result (Unit {0}) × World
  unfolding stored
  receive_chunk chunk w = elim (lookup chunk.file_id w.in_flight) [
    | none ↦ (ok tt, w)
    | some receive ↦
        stored chunk.file_id chunk.chunk_index receive (base64_decode O chunk.data_base64) w
  ]

  unfoldable pub handle_file_chunk : JsonLib → Str → World → Result (Unit {0}) × World
  unfolding receive_chunk
  handle_file_chunk J plain_json w = elim (chunk_from_json J plain_json) [
    | none ↦ (ok tt, w)
    | some chunk ↦ receive_chunk chunk w
  ]
