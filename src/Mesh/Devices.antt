-- ===== src/Mesh/Devices.antt =====
-- The device table of src/mesh_engine.cpp and its copy in the store: discovery and revocation.
pub mod Table
use rin_windows.Base.{
  Str, lit, str_eq, ℤ, pos, to_string, Bool, true, false, Option, none, some, List, [], ◌∷◌, ◌++◌,
  map, Result, ok, err, what, take, if◌then◌else◌,
}
use rin_windows.Base.Dict.{Dict, lookup, insert, erase}
use rin_windows.Protocol.{connected, android, lan}
use rin_windows.Device.{MeshIdentity, TrustedDevice, blank_device, DiscoveredPeer}
use rin_windows.Audit.{security_warning, connection}
use rin_windows.Audit.Entries.{plain, udp_beacon_discovered}
use rin_windows.Persistence.{Db, upsert_device, remove_device}
use rin_windows.World.{World, audit, log_event}

-- `try { store_->...; } catch (const PersistenceException& e) { log(context + e.what()) }`
unfoldable pub persisted : ℤ → Str → Result Db → World → World
unfolding audit plain
persisted now context (ok db) w = record w { store = some db }
persisted now context (err e) w =
    audit (plain now security_warning connection (context ++ what e) none) w

-- The same under `if (store_)`.
unfoldable pub persist_in : ℤ → Str → (Db → Result Db) → Option Db → World → World
unfolding persisted
persist_in now context op none w = w
persist_in now context op (some db) w = persisted now context (op db) w

unfoldable pub persist : ℤ → Str → (Db → Result Db) → World → World
unfolding persist_in
persist now context op w = persist_in now context op w.store w

unfoldable pub set_device : TrustedDevice → World → World
set_device device w = record w { devices = insert device.public_key device w.devices }

unfoldable pub trusted_devices : World → List TrustedDevice
trusted_devices w = map (λ (e : Str × TrustedDevice). e.1) w.devices

-- The device of a peer that is not yet known.
abbrev pub device_of_peer : DiscoveredPeer → TrustedDevice
device_of_peer peer = record blank_device {
  public_key = peer.public_key;
  name = peer.device_name;
  platform = android;
  connection_state = connected;
  active_rail = lan;
  ip_address = some peer.ip;
  port = peer.port;
  latency_ms = pos 2;
}

unfoldable pub refresh_device : DiscoveredPeer → TrustedDevice → World → World
refresh_device peer device w = record w {
  devices =
      insert peer.public_key
        (record device {
          ip_address = some peer.ip;
          port = peer.port;
          connection_state = connected;
        })
        w.devices;
}

unfoldable pub add_peer : ℤ → Option Str → DiscoveredPeer → World → World
unfolding set_device persist log_event audit
add_peer now io peer w =
    audit (udp_beacon_discovered now peer.device_name peer.ip peer.port (some peer.mesh_name)) (
      log_event now
        (lit "Discovered and connected to peer: "
          ++ (peer.device_name
              ++ (lit " (" ++ (peer.ip ++ (lit ":" ++ (to_string peer.port ++ lit ")"))))))
        (persist now (lit "Failed to persist discovered device: ")
          (upsert_device io (device_of_peer peer)) (set_device (device_of_peer peer) w)))

-- A known key or not.
unfoldable pub discovered_peer :
    ℤ → Option Str → DiscoveredPeer → Option TrustedDevice → World → World
unfolding refresh_device add_peer
discovered_peer now io peer (some device) w = refresh_device peer device w
discovered_peer now io peer none w = add_peer now io peer w

unfoldable pub on_peer_discovered : ℤ → Option Str → DiscoveredPeer → World → World
unfolding discovered_peer
on_peer_discovered now io peer w =
    if str_eq peer.mesh_name w.identity.mesh_name
    then discovered_peer now io peer (lookup peer.public_key w.devices) w
    else w

-- What both ends of a revocation do to the table and the store.
unfoldable pub forget_device : ℤ → Option Str → Str → Str → World → World
unfolding persist
forget_device now io context public_key w =
    persist now context (remove_device io public_key)
      (record w { devices = erase public_key w.devices })

-- A heartbeat: a device that is in the table is connected.
unfoldable pub heartbeat_from : Str → Option TrustedDevice → World → World
heartbeat_from key none w = w
heartbeat_from key (some device) w = record w {
  devices = insert key (record device { connection_state = connected }) w.devices;
}
