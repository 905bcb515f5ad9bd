-- ===== src/Protocol/Payloads.antt =====
-- QrJoinToken, FileTransferMetadata and FileChunkPayload as JSON and back (src/protocol.cpp).
use rin_windows.Base.{
  Str, lit, ℤ, pos, Option, List, [], ◌∷◌, ◌++◌, ok, or_throw, caught, json_exception, ◌>>=◌,
}
use rin_windows.Protocol.{QrJoinToken, FileTransferMetadata, FileChunkPayload}
use rin_windows.Protocol.Json.{
  JsonLib, at_text, at_int64, at_int, value_text, value_int64, value_int, optional_text, assign,
  when_some,
}

module _ (J : JsonLib) where
  open J use {Json, fresh, text, number, dump, parse}

  unfoldable pub token_fields : QrJoinToken → List (Str × Json)
  token_fields t =
      (lit "meshName", text t.mesh_name)
      ∷ (lit "hostPublicKey", text t.host_public_key)
      ∷ (lit "hostDeviceName", text t.host_device_name)
      ∷ (lit "ephemeralToken", text t.ephemeral_token)
      ∷ (when_some J (lit "meshSecret") t.mesh_secret
          ++ (lit "hostPort", number t.host_port)
            ∷ (when_some J (lit "hostIp") t.host_ip
                ++ (lit "timestamp", number t.timestamp_ms) ∷ []))

  unfoldable pub token_to_json : QrJoinToken → Option Str
  token_to_json t = dump (assign J fresh (token_fields t))

  unfoldable pub token_from_json : ℤ → Str → Option QrJoinToken
  token_from_json now s = caught do
    j ← or_throw (parse s) json_exception
    mesh_name ← at_text J j (lit "meshName")
    host_public_key ← at_text J j (lit "hostPublicKey")
    host_device_name ← at_text J j (lit "hostDeviceName")
    ephemeral_token ← at_text J j (lit "ephemeralToken")
    mesh_secret ← optional_text J j (lit "meshSecret")
    host_port ← value_int J j (lit "hostPort") (pos 45990)
    host_ip ← optional_text J j (lit "hostIp")
    timestamp_ms ← value_int64 J j (lit "timestamp") now
    ok (record {
      mesh_name = mesh_name;
      host_public_key = host_public_key;
      host_device_name = host_device_name;
      ephemeral_token = ephemeral_token;
      mesh_secret = mesh_secret;
      host_port = host_port;
      host_ip = host_ip;
      timestamp_ms = timestamp_ms;
    })

  unfoldable pub metadata_fields : FileTransferMetadata → List (Str × Json)
  metadata_fields m =
      (lit "fileId", text m.file_id)
      ∷ (lit "fileName", text m.file_name)
      ∷ (lit "fileSize", number m.file_size)
      ∷ (lit "mimeType", text m.mime_type)
      ∷ (lit "totalChunks", number m.total_chunks)
      ∷ (lit "chunkSize", number m.chunk_size)
      ∷ when_some J (lit "checksum") m.sha256_checksum

  unfoldable pub metadata_to_json : FileTransferMetadata → Option Str
  metadata_to_json m = dump (assign J fresh (metadata_fields m))

  unfoldable pub metadata_from_json : Str → Option FileTransferMetadata
  metadata_from_json s = caught do
    j ← or_throw (parse s) json_exception
    file_id ← at_text J j (lit "fileId")
    file_name ← at_text J j (lit "fileName")
    file_size ← at_int64 J j (lit "fileSize")
    mime_type ← value_text J j (lit "mimeType") (lit "*/*")
    total_chunks ← at_int J j (lit "totalChunks")
    chunk_size ← value_int J j (lit "chunkSize") (pos 65536)
    sha256_checksum ← optional_text J j (lit "checksum")
    ok (record {
      file_id = file_id;
      file_name = file_name;
      file_size = file_size;
      mime_type = mime_type;
      total_chunks = total_chunks;
      chunk_size = chunk_size;
      sha256_checksum = sha256_checksum;
    })

  unfoldable pub chunk_fields : FileChunkPayload → List (Str × Json)
  chunk_fields c =
      (lit "fileId", text c.file_id)
      ∷ (lit "chunkIndex", number c.chunk_index)
      ∷ (lit "totalChunks", number c.total_chunks)
      ∷ (lit "data", text c.data_base64)
      ∷ []

  unfoldable pub chunk_to_json : FileChunkPayload → Option Str
  chunk_to_json c = dump (assign J fresh (chunk_fields c))

  unfoldable pub chunk_from_json : Str → Option FileChunkPayload
  chunk_from_json s = caught do
    j ← or_throw (parse s) json_exception
    file_id ← at_text J j (lit "fileId")
    chunk_index ← at_int J j (lit "chunkIndex")
    total_chunks ← at_int J j (lit "totalChunks")
    data_base64 ← at_text J j (lit "data")
    ok (record {
      file_id = file_id;
      chunk_index = chunk_index;
      total_chunks = total_chunks;
      data_base64 = data_base64;
    })
