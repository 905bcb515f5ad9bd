-- ===== src/Samples/Sending.antt =====
-- A file from the sender's texts to the receiver's disk (src/file_transfer.cpp,
-- src/mesh_engine.cpp), at concrete values.
use rin_windows.Base.{
  ℕ, zero, replicate, Bool, true, ◌&&◌, ◌++◌, suc, str_eq, to_lower, ◌<◌, ◌≡◌, refl, ap, none, Str,
  lit, pos, some, List, [], ◌∷◌, ok, arith,
}
use rin_windows.Base.Dict.{lookup}
use rin_windows.Protocol.{blank_packet, FileTransferMetadata}
use rin_windows.Protocol.Json.{is_plain, AllPlain}
use rin_windows.Protocol.RoundTrip.Payloads.{IsSendableMetadata, IsSendableChunk}
use rin_windows.Crypto.OpenSsl.{Bytes, AreBytes}
use rin_windows.Device.{TrustedDevice, blank_device}
use rin_windows.World.{World, ReceivedFileRecord, fresh_world}
use rin_windows.Files.Paths.{filename, mime_from_extension}
use rin_windows.Base.{as_int}
use rin_windows.Crypto.Hex.{generate_ephemeral_token, named_random, hex_char, bytes_to_hex}
use rin_windows.Crypto.Keys.{derive_peer_session_key}
use rin_windows.Crypto.Keys.Agreement.{session_keys_agree}
use rin_windows.Crypto.Base64.{base64_encode}
use rin_windows.Files.Receive.Reassembly.{chunk_message}
use rin_windows.Mesh.Inbox.{report_file}
use rin_windows.Mesh.SendFile.{send_content, complete_json, transfer_key, chunk_count}
use rin_windows.Mesh.SendFile.Delivered.{AreTaken, after_messages, meta, sent_file_delivered}
use rin_windows.Mesh.SendFile.Sent.{send_all}
use rin_windows.Samples.JsonTree.{json, json_laws}
use rin_windows.Samples.ToySsl.{ssl, block_laws, key_laws, mac_laws, generated}
use rin_windows.Samples.Meshes.{quiet, net, owner}

abbrev content : Bytes
content = 7 ∷ 8 ∷ 9 ∷ []

abbrev all_plain : Str → Bool
all_plain [] = true
all_plain (c ∷ s) = is_plain c && all_plain s

-- The id that the sender draws.
abbrev id : Str
id = lit "rin_join_" ++ bytes_to_hex (replicate 12 0)

abbrev receiver : TrustedDevice
receiver = record blank_device { public_key = (generated 9).0.public_key_b64; port = pos 45990 }

abbrev path : Str
path = lit "C:/note.txt"

abbrev sender : World
sender = record (owner 5) { disk = (path, content) ∷ [] }

id_made : generate_ephemeral_token ssl (net.random 0) ≡ ok id
unfolding generate_ephemeral_token named_random ssl
id_made = refl

key_made :
    (key : Bytes) × (transfer_key ssl sender.identity
        (derive_peer_session_key ssl sender.identity.local_private_key receiver.public_key none)
      ≡ ok key)
unfolding transfer_key
key_made =
    let (key, made, _, _) =
      session_keys_agree ssl block_laws key_laws mac_laws 5 9 (generated 5).0 (generated 9).0 none
        (generated 5).1 (generated 9).1 in
    (key, ap (transfer_key ssl sender.identity) made)

on_disk : lookup path sender.disk ≡ some content
unfolding lookup str_eq lit
on_disk = refl

id-AllPlain : AllPlain id
unfolding is_plain lit bytes_to_hex hex_char
id-AllPlain = by_table id refl
  where
    by_table : (s : Str) → all_plain s ≡ true → AllPlain s
    by_table [] h = tt
    by_table (c ∷ s) h = (ground (arith, h), by_table s (ground (arith, h)))

abbrev note : FileTransferMetadata
note =
    meta json json_laws ssl block_laws (lit "C:/dl") quiet id path content net receiver
      (lit "10.0.0.9") key_made.0

note-IsSendable : IsSendableMetadata json note
unfolding json lit ssl bytes_to_hex hex_char filename mime_from_extension chunk_count as_int str_eq
    to_lower
note-IsSendable = record {
  file_id = refl;
  file_name = refl;
  file_size = omega arith;
  mime_type = refl;
  total_chunks = omega arith;
  chunk_size = omega arith;
  checksum = refl;
}

chunk-IsSendable : IsSendableChunk json (chunk_message ssl content id (pos 1) 0)
unfolding json base64_encode ssl lit bytes_to_hex hex_char
chunk-IsSendable = record {
  file_id = refl;
  chunk_index = omega arith;
  total_chunks = omega arith;
  chunk_data = refl;
}

each_sendable : (i : ℕ) → i < 1 → IsSendableChunk json (chunk_message ssl content id (pos 1) i)
each_sendable zero h = chunk-IsSendable
each_sendable (suc i) h = absurd (omega arith)

hash-AreBytes : AreBytes (ssl.sha256 content)
unfolding ssl
hash-AreBytes = omega arith

-- The one chunk arrives twice.
sent_file_delivered_example :
    (start : Str) × (chunks : List Str) × (send_content json ssl net receiver
        (lit "10.0.0.9")
        path
        content
        sender
      ≡ send_all json ssl net receiver
          (lit "10.0.0.9")
          key_made.0
          note
          start
          chunks
          (complete_json id (bytes_to_hex (ssl.sha256 content)))
          (record sender { draws = 1 }))
    × (texts : List Str) × AreTaken json json_laws ssl block_laws
        (lit "C:/dl")
        quiet
        id
        path
        content
        net
        receiver
        (lit "10.0.0.9")
        key_made.0
        chunks
        (0 ∷ 0 ∷ [])
        texts
    × (rec : ReceivedFileRecord) × (w' : World) × (after_messages json json_laws ssl block_laws
          (lit "C:/dl")
          quiet
          id
          path
          content
          net
          receiver
          (lit "10.0.0.9")
          key_made.0
          blank_packet
          start
          texts
          (fresh_world [])
        ≡ (ok tt, report_file (pos 9) rec w'))
    × (rec.file_name ≡ filename path)
    × (lookup rec.local_file_path w'.disk ≡ some content)
sent_file_delivered_example =
    sent_file_delivered json json_laws ssl block_laws (lit "C:/dl") quiet id path content net
      receiver (lit "10.0.0.9") key_made.0 sender blank_packet (0 ∷ 0 ∷ []) (fresh_world []) on_disk
      id_made key_made.1 (omega arith) hash-AreBytes (omega arith) (omega arith) id-AllPlain
      note-IsSendable each_sendable (omega arith) (λ i h. ground arith)
