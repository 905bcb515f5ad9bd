-- ===== src/Audit.antt =====
-- src/audit_logger.cpp: the bounded, numbered log of transport and security events.
pub mod Entries
pub mod Buffer
pub mod Redaction
use rin_windows.Base.{as_int, Option, some, none, negsuc, pos}
use rin_windows.Base.{
  ℕ, suc, ◌+◌, ◌-◌, Str, lit, is_empty, ℤ, to_string, Bool, true, false, ◌&&◌, Option, none, some,
  List, [], ◌∷◌, ◌++◌, length, take, drop, ltb, leb, if◌then◌else◌,
}

pub data AuditLevel : Type 0 where
  info handshake_level security_success security_warning security_error : AuditLevel

pub data AuditCategory : Type 0 where
  connection discovery_udp handshake decryption_ecdh : AuditCategory
  decryption_broadcast signature_verification packet_routing device_revocation : AuditCategory

unfoldable pub level_to_string : AuditLevel → Str
level_to_string info = lit "INFO"
level_to_string handshake_level = lit "HANDSHAKE"
level_to_string security_success = lit "OK"
level_to_string security_warning = lit "WARN"
level_to_string security_error = lit "ERROR"

unfoldable pub category_to_string : AuditCategory → Str
category_to_string connection = lit "CONNECTION"
category_to_string discovery_udp = lit "DISCOVERY_UDP"
category_to_string handshake = lit "HANDSHAKE"
category_to_string decryption_ecdh = lit "DECRYPTION_ECDH"
category_to_string decryption_broadcast = lit "DECRYPTION_BROADCAST"
category_to_string signature_verification = lit "SIGNATURE_VERIFICATION"
category_to_string packet_routing = lit "PACKET_ROUTING"
category_to_string device_revocation = lit "DEVICE_REVOCATION"

pub record AuditEvent : Type 0 where
  pub id : ℕ
  pub timestamp_ms : ℤ
  pub level : AuditLevel
  pub category : AuditCategory
  pub peer_name : Option Str
  pub peer_key_fingerprint : Option Str
  pub message : Str
  pub details : Option Str
  pub error : Option Str

-- `printed` is what went to std::cerr, a line to an element.
pub record MeshAuditLogger : Type 0 where
  pub events : List AuditEvent
  pub next_id : ℕ
  pub printed : List Str

abbrev pub max_event_buffer : ℕ
max_event_buffer = 100

abbrev pub fresh_logger : MeshAuditLogger
fresh_logger = record { events = []; next_id = 1; printed = [] }

unfoldable pub sanitize_text : Str → Option Str
sanitize_text key =
    if is_empty key
    then none
    else if ltb 12 (length key)
    then some (lit "key:" ++ (take 4 key ++ (lit "..." ++ drop (length key - 4) key)))
    else some (lit "key:" ++ key)

unfoldable pub sanitize_key : Option Str → Option Str
unfolding sanitize_text
sanitize_key none = none
sanitize_key (some key) = sanitize_text key

-- `if (o.has_value()) line += before + *o + after`
abbrev suffix : Str → Option Str → Str → Str
suffix before none after = []
suffix before (some s) after = before ++ (s ++ after)

abbrev peer_suffix : Option Str → Option Str → Str
peer_suffix none fingerprint = []
peer_suffix (some name) fingerprint =
    lit " (Peer: " ++ (name ++ (suffix (lit " ") fingerprint [] ++ lit ")"))

unfoldable pub icon : AuditLevel → Str
icon info = []
icon handshake_level = lit "[HANDSHAKE] "
icon security_success = lit "[OK] "
icon security_warning = lit "[WARN] "
icon security_error = lit "[ERROR] "

-- The line for std::cerr.
unfoldable pub console_line : AuditEvent → Str
unfolding icon category_to_string
console_line e =
    icon e.level
    ++ (lit "["
        ++ (category_to_string e.category
            ++ (lit "] "
                ++ (e.message
                    ++ (peer_suffix e.peer_name e.peer_key_fingerprint
                        ++ (suffix (lit " | Details: ") e.details []
                            ++ suffix (lit " | Error: ") e.error []))))))

-- The arguments of log(), with the time at which it is called.
pub record Entry : Type 0 where
  pub now : ℤ
  pub level : AuditLevel
  pub category : AuditCategory
  pub message : Str
  pub peer_name : Option Str
  pub peer_key : Option Str
  pub details : Option Str
  pub error : Option Str

unfoldable pub event_of : ℕ → Entry → AuditEvent
unfolding sanitize_key
event_of id e = record {
  id = id;
  timestamp_ms = e.now;
  level = e.level;
  category = e.category;
  peer_name = e.peer_name;
  peer_key_fingerprint = sanitize_key e.peer_key;
  message = e.message;
  details = e.details;
  error = e.error;
}

-- events_.erase(events_.begin()) when the buffer is full
unfoldable pub make_room : List AuditEvent → List AuditEvent
make_room events = if leb max_event_buffer (length events) then drop 1 events else events

unfoldable pub log : Entry → MeshAuditLogger → MeshAuditLogger
unfolding event_of make_room
log e logger =
    let event = event_of logger.next_id e in
    record {
      events = make_room logger.events ++ event ∷ [];
      next_id = logger.next_id + 1;
      printed = logger.printed ++ console_line event ∷ [];
    }

-- vector(events_.end() - n, events_.end()); `none` is a start outside the vector.
unfoldable pub from_end : ℤ → List AuditEvent → Option (List AuditEvent)
from_end (negsuc n) events = none
from_end (pos n) events =
    if leb n (length events) then some (drop (length events - n) events) else none

-- A long of the build for Windows has the width of an int.
unfoldable pub recent_events : ℕ → MeshAuditLogger → Option (List AuditEvent)
unfolding from_end as_int
recent_events max logger =
    if leb (length logger.events) max
    then some logger.events
    else from_end (as_int max) logger.events

unfoldable pub clear : MeshAuditLogger → MeshAuditLogger
clear logger = record logger { events = [] }

unfoldable pub log_all : List Entry → MeshAuditLogger → MeshAuditLogger
unfolding log
log_all [] logger = logger
log_all (e ∷ entries) logger = log_all entries (log e logger)
