-- ===== src/Transport/Server.antt =====
-- TcpTransport::start, stop and accept_loop (src/transport.cpp): the state that the thread of the
-- engine, the accept thread and the threads of the connections share, and the steps between two
-- accesses to it.
pub mod Stops
use rin_windows.Base.{ℕ, suc, ◌+◌, Bool, true, false, Option, none, some, ◌≡◌, if◌then◌else◌}
use rin_windows.Transport.{scan_ports}
use rin_windows.Device.{default_tcp_port, tcp_port_scan_attempts}

-- Where accept_loop stands.
pub data AcceptLoop : Type 0 where
  -- accept_thread_ is not joinable
  absent : AcceptLoop
  -- before `while (running_)`
  testing : AcceptLoop
  -- in accept
  accepting : AcceptLoop
  -- accept gave an error; before its look at `running_`
  refused : AcceptLoop
  returned : AcceptLoop

-- Where a call of stop stands that found the server running.
pub data Stopping : Type 0 where
  idle : Stopping
  closing : Stopping
  joining : Stopping

pub record TcpServer : Type 0 where
  pub running : Bool
  -- the acceptor is open
  pub listening : Bool
  pub thread : AcceptLoop
  pub stopping : Stopping
  -- the threads in handle_connection, which are detached
  pub connections : ℕ

unfoldable pub fresh_server : TcpServer
fresh_server = record {
  running = false;
  listening = false;
  thread = absent;
  stopping = idle;
  connections = 0;
}

-- A scan without a free port throws after `running_ = true`.
unfoldable pub bound_to : Option ℕ → TcpServer → TcpServer
bound_to none s = record s { running = true; listening = false }
bound_to (some port) s = record s { running = true; listening = true; thread = testing }

unfoldable pub start_server : (ℕ → Bool) → TcpServer → TcpServer
unfolding bound_to scan_ports
start_server bind s = bound_to (scan_ports bind tcp_port_scan_attempts default_tcp_port) s

-- `running_.exchange(false)`
unfoldable pub begin_stop : TcpServer → TcpServer
begin_stop s = if s.running then record s { running = false; stopping = closing } else s

-- accept_thread_.joinable()
unfoldable pub to_join : AcceptLoop → Stopping
to_join absent = idle
to_join testing = joining
to_join accepting = joining
to_join refused = joining
to_join returned = joining

-- acceptor_.close, and the look whether there is a thread to join
unfoldable pub close_acceptor : TcpServer → TcpServer
unfolding to_join
close_acceptor s = record s { listening = false; stopping = to_join s.thread }

unfoldable pub joined : TcpServer → TcpServer
joined s = record s { thread = absent; stopping = idle }

-- What accept answers: a connection, a connection for which no thread can be made, which is caught,
-- or an error. A closed acceptor answers with an error.
pub data Accepted : Type 0 where
  connected : Accepted
  no_resources : Accepted
  failed : Accepted

unfoldable pub answered : Accepted → TcpServer → TcpServer
answered connected s =
    if s.listening
    then record s { thread = testing; connections = s.connections + 1 }
    else record s { thread = refused }
answered no_resources s =
    if s.listening then record s { thread = testing } else record s { thread = refused }
answered failed s = record s { thread = refused }

-- The next step of the accept thread.
unfoldable pub advance_loop : Accepted → AcceptLoop → TcpServer → TcpServer
unfolding answered
advance_loop answer absent s = s
advance_loop answer testing s =
    if s.running then record s { thread = accepting } else record s { thread = returned }
advance_loop answer accepting s = answered answer s
advance_loop answer refused s =
    if s.running then record s { thread = testing } else record s { thread = returned }
advance_loop answer returned s = s

-- A step of any thread. A call of start while the last thread is not joined ends the program.
pub data Step (s : TcpServer) : TcpServer → Type 0 where
  starts : (bind : ℕ → Bool) → s.thread ≡ absent → s.stopping ≡ idle → Step s (start_server bind s)
  runs : (answer : Accepted) → Step s (advance_loop answer s.thread s)
  stops : Step s (begin_stop s)
  closes : s.stopping ≡ closing → Step s (close_acceptor s)
  joins : s.stopping ≡ joining → s.thread ≡ returned → Step s (joined s)
  -- a connection is handled to its end
  serves : (n : ℕ) → s.connections ≡ suc n → Step s (record s { connections = n })

pub data Reaches (s : TcpServer) : TcpServer → Type 0 where
  here : Reaches s s
  next : {t u : TcpServer} → Reaches s t → Step t u → Reaches s u
