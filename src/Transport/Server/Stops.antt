-- ===== src/Transport/Server/Stops.antt =====
-- What a stop of the TCP server leaves (src/transport.cpp).
use rin_windows.Base.{
  ℕ, ◌+◌, Bool, true, false, ◌≡◌, refl, ◌∙◌, ap, Option, none, some, arith, if◌then◌else◌,
}
use rin_windows.Device.{default_tcp_port, tcp_port_scan_attempts}
use rin_windows.Transport.{scan_ports}
use rin_windows.Transport.Server.{
  AcceptLoop, absent, testing, accepting, refused, returned, Stopping, idle, closing, joining,
  to_join, TcpServer, fresh_server, bound_to, start_server, begin_stop, close_acceptor, joined,
  Accepted, connected, no_resources, failed, answered, advance_loop, Step, starts, runs, stops,
  closes, joins, serves, Reaches, here, next,
}

abbrev is_thread : AcceptLoop → Bool
is_thread absent = false
is_thread other = true

-- What is so in every state, by where a stop stands.
abbrev Holds : Stopping → Bool → Bool → AcceptLoop → Type 0
Holds idle true listening thread = Unit
Holds idle false listening thread = (listening ≡ false) × (thread ≡ absent)
Holds closing running listening thread = running ≡ false
Holds joining running listening thread =
    (running ≡ false) × (listening ≡ false) × (is_thread thread ≡ true)

abbrev IsSound : TcpServer → Type 0
IsSound s = Holds s.stopping s.running s.listening s.thread

bound_to-IsSound : (port : Option ℕ) (s : TcpServer) → s.stopping ≡ idle → IsSound (bound_to port s)
unfolding bound_to
bound_to-IsSound none s e = rw e tt
bound_to-IsSound (some port) s e = rw e tt

-- The accept thread moves on.
move :
    (stopping : Stopping) (running listening : Bool) (from to : AcceptLoop)
    → is_thread from ≡ true
    → is_thread to ≡ true
    → Holds stopping running listening from
    → Holds stopping running listening to
move idle true listening from to is_from is_to h = tt
move idle false listening from to is_from is_to (shut, nowhere) =
    absurd (let no_ = nowhere in ground (arith, ap is_thread no_, is_from))
move closing running listening from to is_from is_to h = h
move joining running listening from to is_from is_to (stopped, shut, _) = (stopped, shut, is_to)

if-IsSound : (b : Bool) (x y : TcpServer) → IsSound x → IsSound y → IsSound (if b then x else y)
if-IsSound true x y p q = p
if-IsSound false x y p q = q

module _ (s : TcpServer) (h : IsSound s) where
  moves :
      (from to : AcceptLoop)
      → s.thread ≡ from
      → is_thread from ≡ true
      → is_thread to ≡ true
      → Holds s.stopping s.running s.listening to
  moves from to at is_from is_to =
      move s.stopping s.running s.listening s.thread to (ap is_thread at ∙ is_from) is_to h

  answered-IsSound : (answer : Accepted) → s.thread ≡ accepting → IsSound (answered answer s)
  unfolding answered
  answered-IsSound connected at =
      if-IsSound s.listening (record s { thread = testing; connections = s.connections + 1 })
        (record s { thread = refused }) (moves accepting testing at refl refl)
        (moves accepting refused at refl refl)
  answered-IsSound no_resources at =
      if-IsSound s.listening (record s { thread = testing }) (record s { thread = refused })
        (moves accepting testing at refl refl) (moves accepting refused at refl refl)
  answered-IsSound failed at = moves accepting refused at refl refl

  advance_loop-IsSound :
      (answer : Accepted) (thread : AcceptLoop)
      → s.thread ≡ thread
      → IsSound (advance_loop answer thread s)
  unfolding advance_loop
  advance_loop-IsSound answer absent at = h
  advance_loop-IsSound answer testing at =
      if-IsSound s.running (record s { thread = accepting }) (record s { thread = returned })
        (moves testing accepting at refl refl) (moves testing returned at refl refl)
  advance_loop-IsSound answer accepting at = answered-IsSound answer at
  advance_loop-IsSound answer refused at =
      if-IsSound s.running (record s { thread = testing }) (record s { thread = returned })
        (moves refused testing at refl refl) (moves refused returned at refl refl)
  advance_loop-IsSound answer returned at = h

  begin_stop-IsSound : IsSound (begin_stop s)
  unfolding begin_stop
  begin_stop-IsSound =
      if-IsSound s.running (record s { running = false; stopping = closing }) s refl h

shut_loop :
    (running : Bool) (thread : AcceptLoop)
    → running ≡ false
    → Holds (to_join thread) running false thread
unfolding to_join
shut_loop running absent e = rw e (refl, refl)
shut_loop running testing e = (e, refl, refl)
shut_loop running accepting e = (e, refl, refl)
shut_loop running refused e = (e, refl, refl)
shut_loop running returned e = (e, refl, refl)

stopped-Holds :
    (stopping : Stopping) (running listening : Bool) (thread : AcceptLoop)
    → stopping ≡ closing
    → Holds stopping running listening thread
    → running ≡ false
stopped-Holds idle running listening thread e h = absurd (cc e)
stopped-Holds closing running listening thread e h = h
stopped-Holds joining running listening thread e h = absurd (cc e)

joining-Holds :
    (stopping : Stopping) (running listening : Bool) (thread : AcceptLoop)
    → stopping ≡ joining
    → Holds stopping running listening thread
    → Holds joining running listening thread
joining-Holds idle running listening thread e h = absurd (cc e)
joining-Holds closing running listening thread e h = absurd (cc e)
joining-Holds joining running listening thread e h = h

Step-IsSound : {s t : TcpServer} → Step s t → IsSound s → IsSound t
unfolding start_server close_acceptor joined
Step-IsSound {s} (starts bind nothing at) h =
    bound_to-IsSound (scan_ports bind tcp_port_scan_attempts default_tcp_port) s at
Step-IsSound {s} (runs answer) h = advance_loop-IsSound s h answer s.thread refl
Step-IsSound {s} stops h = begin_stop-IsSound s h
Step-IsSound {s} (closes at) h =
    shut_loop s.running s.thread (stopped-Holds s.stopping s.running s.listening s.thread at h)
Step-IsSound {s} (joins at over) h =
    let (stopped, shut, _) = joining-Holds s.stopping s.running s.listening s.thread at h in
    rw stopped (shut, refl)
Step-IsSound {s} (serves n busy) h = h

Reaches-IsSound : {s : TcpServer} → Reaches fresh_server s → IsSound s
unfolding fresh_server
Reaches-IsSound here = (refl, refl)
Reaches-IsSound (next r step) = Step-IsSound step (Reaches-IsSound r)

idle-Holds :
    (stopping : Stopping) (running listening : Bool) (thread : AcceptLoop)
    → stopping ≡ idle
    → running ≡ false
    → Holds stopping running listening thread
    → (listening ≡ false) × (thread ≡ absent)
idle-Holds idle true listening thread e f h = absurd (cc f)
idle-Holds idle false listening thread e f h = h
idle-Holds closing running listening thread e f h = absurd (cc e)
idle-Holds joining running listening thread e f h = absurd (cc e)

-- Two steps of the accept thread.
abbrev pub two_steps : Accepted → Accepted → TcpServer → TcpServer
two_steps first second s = let t = advance_loop first s.thread s in advance_loop second t.thread t

-- Once the server does not run and the acceptor is closed, the loop is over after two steps.
loop_ends :
    (first second : Accepted) (thread : AcceptLoop) (s : TcpServer)
    → s.running ≡ false
    → s.listening ≡ false
    → is_thread thread ≡ true
    → s.thread ≡ thread
    → two_steps first second s ≡ record s { thread = returned }
unfolding advance_loop answered
loop_ends first second absent s stopped shut is at = absurd (cc is)
loop_ends first second testing s stopped shut is at = rw (at, stopped) refl
loop_ends connected second accepting s stopped shut is at = rw (at, shut, stopped) refl
loop_ends no_resources second accepting s stopped shut is at = rw (at, shut, stopped) refl
loop_ends failed second accepting s stopped shut is at = rw (at, stopped) refl
loop_ends first second refused s stopped shut is at = rw (at, stopped) refl
loop_ends first second returned s stopped shut is at = rw at refl

-- However the threads of the server take turns: when stop has found it running and closed its
-- acceptor, the accept thread returns after at most two more steps, whatever accept answers, so
-- that the join ends; nothing else has changed by then, and the threads of the connections are not
-- waited for. A server that does not run and that no stop is at work on has neither an open acceptor
-- nor an accept thread.
pub stop_ends :
    {s : TcpServer}
    → Reaches fresh_server s
    → (s.stopping ≡ joining
        → (first second : Accepted) → two_steps first second s ≡ record s { thread = returned })
      × (s.stopping ≡ idle → s.running ≡ false → (s.listening ≡ false) × (s.thread ≡ absent))
stop_ends {s} reached = (
  λ at first second.
      let (stopped, shut, is) =
        joining-Holds s.stopping s.running s.listening s.thread at (Reaches-IsSound reached) in
      loop_ends first second s.thread s stopped shut is refl,
  λ at stopped.
      idle-Holds s.stopping s.running s.listening s.thread at stopped (Reaches-IsSound reached),
)
