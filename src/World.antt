-- ===== src/World.antt =====
-- The state of a running program: the members of MeshEngine (include/rin/mesh_engine.hpp) and of
-- its FileTransferEngine (include/rin/file_transfer.hpp), the audit log, and what the program has
-- done to the disk, the network and the desktop. Locks only guard single accesses, so an operation
-- is one step.
use rin_windows.Base.{ℕ, Str, ℤ, Option, none, List, [], ◌∷◌, ◌++◌}
use rin_windows.Base.Dict.{Dict}
use rin_windows.Crypto.OpenSsl.{Bytes}
use rin_windows.Protocol.{MeshPacket, FileTransferMetadata}
use rin_windows.Device.{MeshIdentity, blank_identity, TrustedDevice}
use rin_windows.Audit.{MeshAuditLogger, fresh_logger, Entry, log}
use rin_windows.Persistence.{Db}

pub record MeshEvent : Type 0 where
  pub timestamp_ms : ℤ
  pub message : Str

-- `received_chunks` has the keys of the map of that name, each once.
pub record InFlightReceive : Type 0 where
  pub metadata : FileTransferMetadata
  pub sender_key : Str
  pub sender_name : Str
  pub temp_path : Str
  pub received_chunks : List ℤ

pub record ReceivedFileRecord : Type 0 where
  pub file_id : Str
  pub file_name : Str
  pub file_size : ℤ
  pub mime_type : Str
  pub sender_name : Str
  pub local_file_path : Str
  pub received_timestamp_ms : ℤ

-- A packet that was written to a connection.
pub record Sent : Type 0 where
  pub ip : Str
  pub port : ℤ
  pub packet : MeshPacket

pub record World : Type 0 where
  pub identity : MeshIdentity
  pub devices : Dict TrustedDevice
  pub events : List MeshEvent
  pub sequence : ℕ
  pub store : Option Db
  pub in_flight : Dict InFlightReceive
  pub transfer_sequence : ℕ
  pub logger : MeshAuditLogger
  -- the files, by path
  pub disk : Dict Bytes
  pub sent : List Sent
  -- what SetClipboardData, ShellExecuteA and system() were given
  pub clipboard : Option Str
  pub opened : List Str
  pub commands : List Str
  -- the sequence numbers that were acknowledged
  pub acks : List ℤ
  -- how many answers of the outside were used: random buffers, nonces, connections
  pub draws : ℕ

-- Before any operation, over the files of a disk.
abbrev pub fresh_world : Dict Bytes → World
fresh_world disk = record {
  identity = blank_identity;
  devices = [];
  events = [];
  sequence = 1;
  store = none;
  in_flight = [];
  transfer_sequence = 200;
  logger = fresh_logger;
  disk = disk;
  sent = [];
  clipboard = none;
  opened = [];
  commands = [];
  acks = [];
  draws = 0;
}

-- MeshAuditLogger::instance().log(...)
unfoldable pub audit : Entry → World → World
audit e w = record w { logger = log e w.logger }

-- log_event: `now` is what the clock says.
unfoldable pub log_event : ℤ → Str → World → World
log_event now message w = record w {
  events = w.events ++ record { timestamp_ms = now; message = message } ∷ [];
}
