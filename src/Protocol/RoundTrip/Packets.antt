-- ===== src/Protocol/RoundTrip/Packets.antt =====
-- A packet that can be sent is read back as it was.
use rin_windows.Base.{
  Str, lit, str_eq, str_eq_self, ℤ, pos, IsInt, IsInt64, true, false, Option, none, some, [], ◌≡◌,
  refl, ◌∙◌, ok, arith,
}
use rin_windows.Protocol.{MeshPacket, PacketType, hello, TransportRail, lan}
use rin_windows.Protocol.Names.{
  packet_type_name, rail_name, packet_type_round_trip, rail_round_trip,
}
use rin_windows.Protocol.Json.{JsonLib, JsonLaws, assign, when_some}
use rin_windows.Protocol.Json.Laws.{
  assigned, find-assign, object-assign, AreClean, clean-assign, IsOptionalUtf8, value_text_found,
  value_int64_found, value_int_found, optional_text_found, when_some-AreClean, assigned-when_some,
}
use rin_windows.Protocol.Wire.{
  packet_fields, packet_to_wire_json, read_packet, read_wire_json, packet_from_wire_json,
}

module _ (J : JsonLib) where
  open J use {is_utf8}

  -- The numbers fit the C++ types, and the texts are UTF-8.
  pub record IsSendable (p : MeshPacket) : Type 0 where
    pub version : IsInt p.version
    pub sequence : IsInt64 p.sequence
    pub timestamp : IsInt64 p.timestamp_ms
    pub session_id : is_utf8 p.session_id ≡ true
    pub sender_key : is_utf8 p.sender_key ≡ true
    pub sender_name : is_utf8 p.sender_name ≡ true
    pub target_key : IsOptionalUtf8 J p.target_key
    pub payload : is_utf8 p.payload ≡ true
    pub signature : is_utf8 p.signature ≡ true

module _ (J : JsonLib) (L : JsonLaws J) where
  open J use {Json, fresh, text, number, find}

  name-IsUtf8 : (t : PacketType) → J.is_utf8 (packet_type_name t) ≡ true
  unfolding packet_type_name lit
  name-IsUtf8 hello = L.utf8-ascii _ (omega arith)
  name-IsUtf8 _ = L.utf8-ascii _ (omega arith)

  rail-IsUtf8 : (r : TransportRail) → J.is_utf8 (rail_name r) ≡ true
  unfolding rail_name lit
  rail-IsUtf8 lan = L.utf8-ascii _ (omega arith)
  rail-IsUtf8 _ = L.utf8-ascii _ (omega arith)

  fields-AreClean : (p : MeshPacket) → IsSendable J p → AreClean J (packet_fields J p)
  unfolding packet_fields lit
  fields-AreClean p s = (
    L.utf8-ascii _ (omega arith),
    L.clean-number _,
    (
      L.utf8-ascii _ (omega arith),
      L.clean-text _ s.session_id,
      (
        L.utf8-ascii _ (omega arith),
        L.clean-number _,
        (
          L.utf8-ascii _ (omega arith),
          L.clean-text _ (name-IsUtf8 p.type),
          (
            L.utf8-ascii _ (omega arith),
            L.clean-text _ s.sender_key,
            (
              L.utf8-ascii _ (omega arith),
              L.clean-text _ s.sender_name,
              when_some-AreClean J L _ p.target_key _ (L.utf8-ascii _ (omega arith)) s.target_key (
                L.utf8-ascii _ (omega arith),
                L.clean-text _ s.payload,
                (
                  L.utf8-ascii _ (omega arith),
                  L.clean-text _ s.signature,
                  (
                    L.utf8-ascii _ (omega arith),
                    L.clean-text _ (rail-IsUtf8 p.rail),
                    (L.utf8-ascii _ (omega arith), L.clean-number _, tt),
                  ),
                ),
              ),
            ),
          ),
        ),
      ),
    ),
  )

  -- Each member of the written object.
  module _ (p : MeshPacket) where
    abbrev written : Json
    written = assign J fresh (packet_fields J p)

    written-object : J.is_object written ≡ true
    unfolding packet_fields
    written-object = object-assign J L _ _ _

    find-written :
        (k : Str) (v : Json)
        → str_eq (lit "targetKey") k ≡ false
        → assigned J none (packet_fields J (record p { target_key = none })) k ≡ some v
        → find written k ≡ some v
    unfolding packet_fields when_some
    find-written k v h e = find-assign J L _ k ∙ assigned-when_some J L _ _ k p.target_key _ h ∙ e

    find-target :
        find written (lit "targetKey")
        ≡ assigned J none (when_some J (lit "targetKey") p.target_key) (lit "targetKey")
    unfolding packet_fields when_some str_eq lit
    find-target = find-assign J L _ _ ∙ target p.target_key
      where
        target :
            (o : Option Str)
            → assigned J none (packet_fields J (record p { target_key = o })) (lit "targetKey")
              ≡ assigned J none (when_some J (lit "targetKey") o) (lit "targetKey")
        target none = refl
        target (some k) = refl

    -- Every other member.
    members :
        (find written (lit "v") ≡ some (number p.version))
        × (find written (lit "sess") ≡ some (text p.session_id))
        × (find written (lit "seq") ≡ some (number p.sequence))
        × (find written (lit "type") ≡ some (text (packet_type_name p.type)))
        × (find written (lit "senderKey") ≡ some (text p.sender_key))
        × (find written (lit "senderName") ≡ some (text p.sender_name))
        × (find written (lit "payload") ≡ some (text p.payload))
        × (find written (lit "sig") ≡ some (text p.signature))
        × (find written (lit "rail") ≡ some (text (rail_name p.rail)))
        × (find written (lit "ts") ≡ some (number p.timestamp_ms))
    unfolding packet_fields when_some str_eq lit
    members = (
      find-written _ _ refl refl,
      find-written _ _ refl refl,
      find-written _ _ refl refl,
      find-written _ _ refl refl,
      find-written _ _ refl refl,
      find-written _ _ refl refl,
      find-written _ _ refl refl,
      find-written _ _ refl refl,
      find-written _ _ refl refl,
      find-written _ _ refl refl,
    )

    read_packet-written :
        (now : ℤ)
        → IsSendable J p
        → read_packet J now written p.version p.session_id p.sequence (some p.type) ≡ ok (some p)
    unfolding read_packet
    read_packet-written now s = rw (
      value_text_found J L written _ written-object [] _ members.4,
      value_text_found J L written _ written-object (lit "Unknown Device") _ members.5,
      optional_text_found J L written _ p.target_key find-target (str_eq_self _),
      value_text_found J L written _ written-object [] _ members.6,
      value_text_found J L written _ written-object [] _ members.7,
      value_text_found J L written _ written-object (lit "LAN") _ members.8,
      value_int64_found J L written _ written-object now _ s.timestamp members.9,
      rail_round_trip p.rail,
    )

    read-written :
        (now : ℤ) (line : Str)
        → IsSendable J p
        → J.parse line ≡ some written
        → read_wire_json J now line ≡ ok (some p)
    unfolding read_wire_json
    read-written now line s parsed =
        rw
          (
            parsed,
            value_int_found J L written _ written-object (pos 1) _ s.version members.0,
            value_text_found J L written _ written-object (lit "sess_default") _ members.1,
            value_int64_found J L written _ written-object (pos 0) _ s.sequence members.2,
            value_text_found J L written _ written-object (lit "HEARTBEAT") _ members.3,
            packet_type_round_trip p.type,
          )
          (read_packet-written now s)

  -- A packet whose numbers fit their types and whose texts are UTF-8 is written as a line, and
  -- that line is read back, at any time, as the same packet.
  pub packet_round_trip :
      (p : MeshPacket) (now : ℤ)
      → IsSendable J p
      → (line : Str) × (packet_to_wire_json J p ≡ some line)
        × (packet_from_wire_json J now line ≡ some p)
  unfolding packet_to_wire_json packet_from_wire_json
  packet_round_trip p now s =
      let (line, dumped) = L.dump-clean _ (clean-assign J L _ (fields-AreClean p s)) in
      (
        line,
        dumped,
        rw (read-written p now line s (L.parse-dump _ _ dumped), packet_from_wire_json),
      )
