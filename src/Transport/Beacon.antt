-- ===== src/Transport/Beacon.antt =====
-- UdpBeacon (src/transport.cpp): the beacon that is broadcast, and the step of the listening loop.
pub mod Foreign
pub mod Heard
use rin_windows.Base.{
  Str, lit, str_eq, is_empty, ℤ, Bool, ◌&&◌, not, Option, none, some, List, [], ◌∷◌, Result, ok,
  or_throw, json_exception, ◌>>=◌, caught, pos, if◌then◌else◌,
}
use rin_windows.Protocol.Json.{JsonLib, value_text, value_int, assign}
use rin_windows.Device.{DiscoveredPeer, default_tcp_port}
use rin_windows.World.{World}

-- What UdpBeacon::start keeps.
pub record UdpBeacon : Type 0 where
  pub mesh_name : Str
  pub public_key : Str
  pub device_name : Str
  pub tcp_port : ℤ

module _ (J : JsonLib) where
  open J use {Json, fresh, text, number, dump, parse}

  unfoldable pub beacon_fields : ℤ → UdpBeacon → List (Str × Json)
  beacon_fields now b =
      (lit "magic", text (lit "RIN_BEACON"))
      ∷ (lit "mesh", text b.mesh_name)
      ∷ (lit "key", text b.public_key)
      ∷ (lit "name", text b.device_name)
      ∷ (lit "port", number b.tcp_port)
      ∷ (lit "ts", number now)
      ∷ []

  -- broadcast_loop: what is sent, if it can be dumped; what throws is ignored.
  unfoldable pub beacon_payload : ℤ → UdpBeacon → Option Str
  unfolding beacon_fields
  beacon_payload now b = dump (assign J fresh (beacon_fields now b))

  -- The peer of a beacon, if it is one and not our own.
  unfoldable pub peer_of_beacon : Str → Str → Json → Result (Option DiscoveredPeer)
  peer_of_beacon own ip j = do
    mesh ← value_text J j (lit "mesh") []
    key ← value_text J j (lit "key") []
    name ← value_text J j (lit "name") []
    port ← value_int J j (lit "port") (pos default_tcp_port)
    ok (
        if not (is_empty key) && not (str_eq key own)
        then some (record {
          mesh_name = mesh;
          public_key = key;
          device_name = name;
          ip = ip;
          port = port;
        })
        else none)

  unfoldable pub read_beacon : Str → Str → Str → Result (Option DiscoveredPeer)
  unfolding peer_of_beacon
  read_beacon own ip message = do
    j ← or_throw (parse message) json_exception
    magic ← value_text J j (lit "magic") []
    if str_eq magic (lit "RIN_BEACON") then peer_of_beacon own ip j else ok none

  module _ (on_peer : DiscoveredPeer → World → World) where
    unfoldable pub report : Option (Option DiscoveredPeer) → World → World
    report (some (some peer)) w = on_peer peer w
    report other w = w

    -- One round of listen_loop: a datagram with its sender's address, or a failed or empty receive.
    unfoldable pub listen_step : Str → Option (Str × Str) → World → World
    unfolding read_beacon report
    listen_step own none w = w
    listen_step own (some (message, ip)) w =
        if is_empty message then w else report (caught (read_beacon own ip message)) w
