-- ===== src/Samples/Messages.antt =====
-- The round trips of src/protocol.cpp, at concrete values.
use rin_windows.Base.{Str, lit, pos, none, some, ◌≡◌, refl, arith}
use rin_windows.Protocol.{
  MeshPacket, clipboard_sync, relay, QrJoinToken, FileTransferMetadata, FileChunkPayload,
}
use rin_windows.Protocol.Wire.{packet_to_wire_json, packet_from_wire_json}
use rin_windows.Protocol.Payloads.{token_to_json, token_from_json}
use rin_windows.Protocol.RoundTrip.Packets.{IsSendable, packet_round_trip}
use rin_windows.Protocol.RoundTrip.Tokens.{IsSendableToken, token_round_trip}
use rin_windows.Protocol.RoundTrip.Payloads.{IsSendableMetadata, IsSendableChunk}
use rin_windows.Samples.JsonTree.{json, json_laws}

abbrev pub clip : MeshPacket
clip = record {
  version = pos 1;
  session_id = lit "s-1";
  sequence = pos 7;
  type = clipboard_sync;
  sender_key = lit "AAAA";
  sender_name = lit "Desk";
  target_key = some (lit "BBBB");
  payload = lit "Q2xpcA==";
  signature = lit "ecdsa:AAAA";
  rail = relay;
  timestamp_ms = pos 1700;
}

pub clip-IsSendable : IsSendable json clip
unfolding json lit
clip-IsSendable = record {
  version = omega arith;
  sequence = omega arith;
  timestamp = omega arith;
  session_id = refl;
  sender_key = refl;
  sender_name = refl;
  target_key = refl;
  payload = refl;
  signature = refl;
}

packet_round_trip_example :
    (line : Str) × (packet_to_wire_json json clip ≡ some line)
    × (packet_from_wire_json json (pos 9) line ≡ some clip)
packet_round_trip_example = packet_round_trip json json_laws clip (pos 9) clip-IsSendable

abbrev pub join : QrJoinToken
join = record {
  mesh_name = lit "Home";
  host_public_key = lit "AAAA";
  host_device_name = lit "Desk";
  ephemeral_token = lit "00ff";
  mesh_secret = some (lit "secret");
  host_port = pos 45990;
  host_ip = none;
  timestamp_ms = pos 1700;
}

join-IsSendable : IsSendableToken json join
unfolding json lit
join-IsSendable = record {
  mesh_name = refl;
  host_public_key = refl;
  host_device_name = refl;
  ephemeral_token = refl;
  mesh_secret = refl;
  host_port = omega arith;
  host_ip = tt;
  timestamp = omega arith;
}

token_round_trip_example :
    (s : Str) × (token_to_json json join ≡ some s) × (token_from_json json (pos 3) s ≡ some join)
token_round_trip_example = token_round_trip json json_laws join (pos 3) join-IsSendable

abbrev photo : FileTransferMetadata
photo = record {
  file_id = lit "ab12";
  file_name = lit "cat.png";
  file_size = pos 70000;
  mime_type = lit "image/png";
  total_chunks = pos 2;
  chunk_size = pos 65536;
  sha256_checksum = some (lit "00");
}

photo-IsSendable : IsSendableMetadata json photo
unfolding json lit
photo-IsSendable = record {
  file_id = refl;
  file_name = refl;
  file_size = omega arith;
  mime_type = refl;
  total_chunks = omega arith;
  chunk_size = omega arith;
  checksum = refl;
}

abbrev part : FileChunkPayload
part = record {
  file_id = lit "ab12";
  chunk_index = pos 1;
  total_chunks = pos 2;
  data_base64 = lit "QUJD";
}

part-IsSendable : IsSendableChunk json part
unfolding json lit
part-IsSendable = record {
  file_id = refl;
  chunk_index = omega arith;
  total_chunks = omega arith;
  chunk_data = refl;
}
