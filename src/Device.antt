-- ===== src/Device.antt =====
-- include/rin/mesh_engine.hpp: the local identity and the devices that it trusts, and the ports and
-- limits of include/rin/transport.hpp.
use rin_windows.Base.{ℕ, Str, ℤ, pos, Bool, false, Option, none, []}
use rin_windows.Protocol.{ConnectionState, discovered, TransportRail, lan, PlatformType, windows}

abbrev pub default_tcp_port : ℕ
default_tcp_port = 45990

abbrev pub udp_beacon_port : ℕ
udp_beacon_port = 45991

abbrev pub tcp_port_scan_attempts : ℕ
tcp_port_scan_attempts = 5

pub record MeshIdentity : Type 0 where
  pub mesh_name : Str
  pub local_device_name : Str
  pub local_public_key : Str
  pub local_private_key : Str
  pub local_fingerprint : Str
  pub mesh_secret : Str
  pub port : ℤ

-- The member initialisers.
abbrev pub blank_identity : MeshIdentity
blank_identity = record {
  mesh_name = [];
  local_device_name = [];
  local_public_key = [];
  local_private_key = [];
  local_fingerprint = [];
  mesh_secret = [];
  port = pos default_tcp_port;
}

pub record TrustedDevice : Type 0 where
  pub public_key : Str
  pub name : Str
  pub platform : PlatformType
  pub connection_state : ConnectionState
  pub active_rail : TransportRail
  pub ip_address : Option Str
  pub port : ℤ
  pub latency_ms : ℤ
  pub is_self : Bool

abbrev pub blank_device : TrustedDevice
blank_device = record {
  public_key = [];
  name = [];
  platform = windows;
  connection_state = discovered;
  active_rail = lan;
  ip_address = none;
  port = pos default_tcp_port;
  latency_ms = pos 2;
  is_self = false;
}

pub record DiscoveredPeer : Type 0 where
  pub mesh_name : Str
  pub public_key : Str
  pub device_name : Str
  pub ip : Str
  pub port : ℤ
