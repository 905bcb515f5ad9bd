-- ===== src/Protocol.antt =====
-- include/rin/protocol.hpp: the enumerations and the records that travel on the wire.
pub mod Names
pub mod Json
pub mod Wire
pub mod Payloads
pub mod RoundTrip
use rin_windows.Base.{Str, ℤ, pos, Option, none, []}

pub data ConnectionState : Type 0 where
  connected active reconnecting idle offline lost discovered authenticating : ConnectionState

pub data TransportRail : Type 0 where
  lan wifi_direct ble internet_p2p relay : TransportRail

pub data PlatformType : Type 0 where
  android windows linux mac_os tablet : PlatformType

pub data PacketType : Type 0 where
  hello join_request join_accept clipboard_sync browser_handoff : PacketType
  file_start file_chunk file_complete revocation heartbeat ack : PacketType

pub record MeshPacket : Type 0 where
  pub version : ℤ
  pub session_id : Str
  pub sequence : ℤ
  pub type : PacketType
  pub sender_key : Str
  pub sender_name : Str
  pub target_key : Option Str
  pub payload : Str
  pub signature : Str
  pub rail : TransportRail
  pub timestamp_ms : ℤ

-- The packet before any field is assigned: the member initialisers.
abbrev pub blank_packet : MeshPacket
blank_packet = record {
  version = pos 1;
  session_id = [];
  sequence = pos 0;
  type = heartbeat;
  sender_key = [];
  sender_name = [];
  target_key = none;
  payload = [];
  signature = [];
  rail = lan;
  timestamp_ms = pos 0;
}

pub record QrJoinToken : Type 0 where
  pub mesh_name : Str
  pub host_public_key : Str
  pub host_device_name : Str
  pub ephemeral_token : Str
  pub mesh_secret : Option Str
  pub host_port : ℤ
  pub host_ip : Option Str
  pub timestamp_ms : ℤ

pub record FileTransferMetadata : Type 0 where
  pub file_id : Str
  pub file_name : Str
  pub file_size : ℤ
  pub mime_type : Str
  pub total_chunks : ℤ
  pub chunk_size : ℤ
  pub sha256_checksum : Option Str

pub record FileChunkPayload : Type 0 where
  pub file_id : Str
  pub chunk_index : ℤ
  pub total_chunks : ℤ
  pub data_base64 : Str
