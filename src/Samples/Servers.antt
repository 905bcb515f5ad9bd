-- ===== src/Samples/Servers.antt =====
-- The TCP server of src/transport.cpp, at a concrete run.
use rin_windows.Base.{true, false, ◌≡◌, refl}
use rin_windows.Transport.{scan_ports}
use rin_windows.Transport.Server.{
  TcpServer, fresh_server, bound_to, start_server, begin_stop, close_acceptor, to_join,
  advance_loop, answered, Accepted, connected, absent, accepting, returned, idle, joining, Reaches,
  here, next, starts, runs, stops, closes,
}
use rin_windows.Transport.Server.Stops.{two_steps, stop_ends}

-- A server takes a connection and waits for the next one, and is told to stop.
abbrev stopped : TcpServer
stopped = record {
  running = false;
  listening = false;
  thread = accepting;
  stopping = joining;
  connections = 1;
}

stopped-Reaches : Reaches fresh_server stopped
unfolding fresh_server start_server bound_to scan_ports advance_loop answered begin_stop
    close_acceptor to_join
stopped-Reaches =
    next
      (next
        (next
          (next (next (next here (starts (λ p. true) refl refl)) (runs connected)) (runs connected))
          (runs connected))
        stops)
      (closes refl)

stop_ends_example :
    (stopped.stopping ≡ joining
      → (first second : Accepted)
      → two_steps first second stopped ≡ record stopped { thread = returned })
    × (stopped.stopping ≡ idle
        → stopped.running ≡ false
        → (stopped.listening ≡ false) × (stopped.thread ≡ absent))
stop_ends_example = stop_ends stopped-Reaches
