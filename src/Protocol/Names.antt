-- ===== src/Protocol/Names.antt =====
-- The wire spelling of packet types and rails (src/protocol.cpp).
use rin_windows.Base.{Str, lit, str_eq, Option, none, some, ◌≡◌, refl, if◌then◌else◌}
use rin_windows.Protocol.{
  TransportRail, lan, wifi_direct, ble, internet_p2p, relay, PacketType, hello, join_request,
  join_accept, clipboard_sync, browser_handoff, file_start, file_chunk, file_complete, revocation,
  heartbeat, ack,
}

unfoldable pub packet_type_name : PacketType → Str
packet_type_name hello = lit "HELLO"
packet_type_name join_request = lit "JOIN_REQUEST"
packet_type_name join_accept = lit "JOIN_ACCEPT"
packet_type_name clipboard_sync = lit "CLIPBOARD_SYNC"
packet_type_name browser_handoff = lit "BROWSER_HANDOFF"
packet_type_name file_start = lit "FILE_START"
packet_type_name file_chunk = lit "FILE_CHUNK"
packet_type_name file_complete = lit "FILE_COMPLETE"
packet_type_name revocation = lit "REVOCATION"
packet_type_name heartbeat = lit "HEARTBEAT"
packet_type_name ack = lit "ACK"

unfoldable pub packet_type_from_wire_string : Str → Option PacketType
packet_type_from_wire_string s =
    if str_eq s (lit "HELLO")
    then some hello
    else if str_eq s (lit "JOIN_REQUEST")
    then some join_request
    else if str_eq s (lit "JOIN_ACCEPT")
    then some join_accept
    else if str_eq s (lit "CLIPBOARD_SYNC")
    then some clipboard_sync
    else if str_eq s (lit "BROWSER_HANDOFF")
    then some browser_handoff
    else if str_eq s (lit "FILE_START")
    then some file_start
    else if str_eq s (lit "FILE_CHUNK")
    then some file_chunk
    else if str_eq s (lit "FILE_COMPLETE")
    then some file_complete
    else if str_eq s (lit "REVOCATION")
    then some revocation
    else if str_eq s (lit "HEARTBEAT")
    then some heartbeat
    else if str_eq s (lit "ACK")
    then some ack
    else none

unfoldable pub rail_name : TransportRail → Str
rail_name lan = lit "LAN"
rail_name wifi_direct = lit "WIFI_DIRECT"
rail_name ble = lit "BLE"
rail_name internet_p2p = lit "INTERNET_P2P"
rail_name relay = lit "RELAY"

unfoldable pub transport_rail_from_wire_string : Str → Option TransportRail
transport_rail_from_wire_string s =
    if str_eq s (lit "LAN")
    then some lan
    else if str_eq s (lit "WIFI_DIRECT")
    then some wifi_direct
    else if str_eq s (lit "BLE")
    then some ble
    else if str_eq s (lit "INTERNET_P2P")
    then some internet_p2p
    else if str_eq s (lit "RELAY")
    then some relay
    else none

pub packet_type_round_trip :
    (t : PacketType) → packet_type_from_wire_string (packet_type_name t) ≡ some t
unfolding packet_type_name packet_type_from_wire_string str_eq lit
packet_type_round_trip hello = refl
packet_type_round_trip _ = refl

pub rail_round_trip : (r : TransportRail) → transport_rail_from_wire_string (rail_name r) ≡ some r
unfolding rail_name transport_rail_from_wire_string str_eq lit
rail_round_trip lan = refl
rail_round_trip _ = refl
