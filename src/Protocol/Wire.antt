-- ===== src/Protocol/Wire.antt =====
-- MeshPacket as wire JSON and back (src/protocol.cpp). `now` is what the clock says.
use rin_windows.Base.{
  Str, lit, ℤ, pos, Option, none, some, List, [], ◌∷◌, ◌++◌, Result, ok, err, or_throw,
  json_exception, ◌>>=◌,
}
use rin_windows.Protocol.{MeshPacket, lan, PacketType}
use rin_windows.Protocol.Names.{
  packet_type_name, packet_type_from_wire_string, rail_name, transport_rail_from_wire_string,
}
use rin_windows.Protocol.Json.{
  JsonLib, value_text, value_int64, value_int, optional_text, assign, when_some,
}

module _ (J : JsonLib) where
  open J use {Json, fresh, text, number, dump, parse}

  unfoldable pub packet_fields : MeshPacket → List (Str × Json)
  packet_fields p =
      (lit "v", number p.version)
      ∷ (lit "sess", text p.session_id)
      ∷ (lit "seq", number p.sequence)
      ∷ (lit "type", text (packet_type_name p.type))
      ∷ (lit "senderKey", text p.sender_key)
      ∷ (lit "senderName", text p.sender_name)
      ∷ (when_some J (lit "targetKey") p.target_key
          ++ (lit "payload", text p.payload)
            ∷ (lit "sig", text p.signature)
            ∷ (lit "rail", text (rail_name p.rail))
            ∷ (lit "ts", number p.timestamp_ms)
            ∷ [])

  -- `none`: `dump` threw, since a field is not UTF-8.
  unfoldable pub packet_to_wire_json : MeshPacket → Option Str
  packet_to_wire_json p = dump (assign J fresh (packet_fields p))

  -- What follows the packet type, once that is known.
  unfoldable pub read_packet :
      ℤ → Json → ℤ → Str → ℤ → Option PacketType → Result (Option MeshPacket)
  read_packet now j version session_id sequence none = ok none
  read_packet now j version session_id sequence (some type) = do
    sender_key ← value_text J j (lit "senderKey") []
    sender_name ← value_text J j (lit "senderName") (lit "Unknown Device")
    target_key ← optional_text J j (lit "targetKey")
    payload ← value_text J j (lit "payload") []
    signature ← value_text J j (lit "sig") []
    rail_str ← value_text J j (lit "rail") (lit "LAN")
    timestamp_ms ← value_int64 J j (lit "ts") now
    ok (
        some (record {
          version = version;
          session_id = session_id;
          sequence = sequence;
          type = type;
          sender_key = sender_key;
          sender_name = sender_name;
          target_key = target_key;
          payload = payload;
          signature = signature;
          rail = elim (transport_rail_from_wire_string rail_str) [ none ↦ lan | some r ↦ r ];
          timestamp_ms = timestamp_ms;
        }))

  unfoldable pub read_wire_json : ℤ → Str → Result (Option MeshPacket)
  unfolding read_packet
  read_wire_json now line = do
    j ← or_throw (parse line) json_exception
    version ← value_int J j (lit "v") (pos 1)
    session_id ← value_text J j (lit "sess") (lit "sess_default")
    sequence ← value_int64 J j (lit "seq") (pos 0)
    type_str ← value_text J j (lit "type") (lit "HEARTBEAT")
    read_packet now j version session_id sequence (packet_type_from_wire_string type_str)

  unfoldable pub packet_from_wire_json : ℤ → Str → Option MeshPacket
  packet_from_wire_json now line = elim (read_wire_json now line) [
    | ok packet ↦ packet
    | err e ↦ none
  ]
