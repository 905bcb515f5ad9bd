-- ===== src/Mesh/Service.antt =====
-- MeshEngine::start (src/mesh_engine.cpp), the callbacks that the TCP server is given, and the
-- events that the engine shows.
pub mod Admission
use rin_windows.Base.{
  ℕ, ◌-◌, leb, Str, lit, ℤ, pos, to_string, Bool, Option, none, some, List, ◌++◌, length, drop,
  Result, ok, err, Exn, runtime_error, if◌then◌else◌,
}
use rin_windows.Base.Act.{Act}
use rin_windows.Protocol.Json.{JsonLib}
use rin_windows.Crypto.OpenSsl.{OpenSsl}
use rin_windows.World.{World, MeshEvent, log_event}
use rin_windows.Transport.{handle_connection, start_tcp}
use rin_windows.Mesh.Inbox.{Surroundings, verify_packet_signature}
use rin_windows.Mesh.Inbox.Dispatch.{on_packet_received}

-- A line from a connection; `acked` is whether the ACK could be written.
unfoldable pub incoming : JsonLib → OpenSsl → Str → Surroundings → Bool → Str → World → World
unfolding handle_connection
incoming J O downloads s acked line w =
    handle_connection J (verify_packet_signature O s.now) (on_packet_received J O downloads s) acked
      s.now line w

abbrev pub udp_failed : Str → Exn
udp_failed text = runtime_error (lit "UdpBeacon::start: bind failed on port 45991: " ++ text)

-- The sockets of start: the port of the server, and what binding the beacon's port answers.
unfoldable pub started : ℤ → Result ℕ → Option Str → Act World (Unit {0})
unfolding log_event
started now (err e) udp w = (err e, w)
started now (ok port) (some text) w =
    (err (udp_failed text), record w { identity = record w.identity { port = pos port } })
started now (ok port) none w = (
  ok tt,
  log_event now (lit "Listening on TCP " ++ (to_string (pos port) ++ lit ", UDP beacon on 45991"))
      (record w { identity = record w.identity { port = pos port } }),
)

-- MeshEngine::start; `bind` says which ports are free.
unfoldable pub start : (ℕ → Bool) → Option Str → ℤ → Act World (Unit {0})
unfolding started
start bind udp now = started now (start_tcp bind) udp

-- MeshEngine::recent_events
unfoldable pub recent_events : ℕ → World → List MeshEvent
recent_events max w =
    if leb (length w.events) max then w.events else drop (length w.events - max) w.events
