-- ===== src/Transport.antt =====
-- src/transport.cpp: the TCP side, a packet and its acknowledgement to a connection.
pub mod Beacon
pub mod Ports
pub mod Server
use rin_windows.Base.{
  ℕ, zero, suc, ◌+◌, ◌-◌, Str, lit, str_eq, is_empty, ℤ, pos, negsuc, to_string, Bool, true, false,
  ◌||◌, Option, none, some, List, [], ◌∷◌, ◌++◌, Result, ok, err, runtime_error, Exn, if◌then◌else◌,
}
use rin_windows.Protocol.{MeshPacket}
use rin_windows.Protocol.Names.{rail_name}
use rin_windows.Protocol.Json.{JsonLib}
use rin_windows.Protocol.Wire.{packet_to_wire_json, packet_from_wire_json}
use rin_windows.Audit.Entries.{connection_attempt, connection_established, connection_failed}
use rin_windows.Device.{default_tcp_port, tcp_port_scan_attempts}
use rin_windows.World.{World, Sent, audit}

-- Binding to ports from `port` on; `bind` says which are free.
unfoldable pub scan_ports : (ℕ → Bool) → ℕ → ℕ → Option ℕ
scan_ports bind zero port = none
scan_ports bind (suc attempts) port =
    let rest = scan_ports bind attempts (port + 1) in if bind port then some port else rest

abbrev pub no_port : Exn
no_port = runtime_error (
    lit "TcpTransport::start: could not bind any port in range "
    ++ (to_string (pos default_tcp_port)
        ++ (lit "-" ++ to_string (pos (default_tcp_port + tcp_port_scan_attempts - 1)))))

unfoldable pub listening : Option ℕ → Result ℕ
listening (some port) = ok port
listening none = err no_port

-- TcpTransport::start: the port it listens on
unfoldable pub start_tcp : (ℕ → Bool) → Result ℕ
unfolding scan_ports listening
start_tcp bind = listening (scan_ports bind tcp_port_scan_attempts default_tcp_port)

-- What becomes of a connection: not made; made, but the write or the wait for the ACK fails; or an
-- ACK after some milliseconds. The texts are asio's.
pub data Contact : Type 0 where
  unreachable : Str → Contact
  broken : Str → Contact
  acknowledged : ℤ → Contact

-- std::max<int64_t>(1, elapsed)
unfoldable pub at_least_one : ℤ → ℤ
at_least_one (pos (suc n)) = pos (suc n)
at_least_one other = pos 1

unfoldable pub write_packet : Str → ℤ → MeshPacket → World → World
write_packet ip port packet w = record w {
  sent = w.sent ++ record { ip = ip; port = port; packet = packet } ∷ [];
}

module _ (now : ℤ) (ip : Str) (port : ℤ) (packet : MeshPacket) where
  unfoldable pub failed : Str → World → Option ℤ × World
  unfolding audit rail_name
  failed text w = (
    none,
    audit (connection_failed now (rail_name packet.rail) ip port text (some packet.sender_name)) w,
  )

  -- A packet that cannot be dumped throws, on an open connection.
  unfoldable pub exchange : Option Str → Contact → World → Option ℤ × World
  unfolding failed write_packet at_least_one audit
  exchange line (unreachable text) w = failed text w
  exchange none other w = failed [] w
  exchange (some line) (broken text) w = failed text (write_packet ip port packet w)
  exchange (some line) (acknowledged elapsed) w = (
    some (at_least_one elapsed),
    audit (connection_established now (rail_name packet.rail) ip port (some packet.sender_name))
        (write_packet ip port packet w),
  )

  unfoldable pub send_packet : JsonLib → Contact → World → Option ℤ × World
  unfolding exchange
  send_packet J contact w =
      if is_empty ip || str_eq ip (lit "127.0.0.1")
      then (none, w)
      else exchange (packet_to_wire_json J packet) contact (
          audit (connection_attempt now (rail_name packet.rail) ip port (some packet.sender_name))
            w)

-- handle_connection, with the two callbacks of start(). Its `catch` only prints.
module _ (J : JsonLib) (verify_signature : MeshPacket → World → Bool × World)
    (on_packet : MeshPacket → World → Result (Unit {0}) × World) where
  -- `acked` is whether the ACK could be written; if not, the packet is not dispatched.
  unfoldable pub acknowledge : Bool → MeshPacket → World → World
  acknowledge false packet w = w
  acknowledge true packet w =
      (on_packet packet (record w { acks = w.acks ++ packet.sequence ∷ [] })).1

  unfoldable pub admit : Bool → MeshPacket → Bool × World → World
  unfolding acknowledge
  admit acked packet (false, w) = w
  admit acked packet (true, w) = acknowledge acked packet w

  unfoldable pub admit_parsed : Bool → Option MeshPacket → World → World
  unfolding admit
  admit_parsed acked none w = w
  admit_parsed acked (some packet) w = admit acked packet (verify_signature packet w)

  -- `line` is what read_line returned.
  unfoldable pub handle_connection : Bool → ℤ → Str → World → World
  unfolding admit_parsed
  handle_connection acked now line w =
      if is_empty line then w else admit_parsed acked (packet_from_wire_json J now line) w
