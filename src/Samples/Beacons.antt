-- ===== src/Samples/Beacons.antt =====
-- The beacons of src/transport.cpp, at concrete values.
use rin_windows.Base.{Str, lit, str_eq, pos, none, some, [], ◌≡◌, ◌⊎◌, refl, arith, if◌then◌else◌}
use rin_windows.Device.{DiscoveredPeer}
use rin_windows.World.{World, fresh_world}
use rin_windows.Mesh.Devices.{on_peer_discovered}
use rin_windows.Transport.Beacon.{UdpBeacon, beacon_payload, listen_step}
use rin_windows.Transport.Beacon.Foreign.{IsForeign, listen_step-Foreign}
use rin_windows.Transport.Beacon.Heard.{announced, IsSendableBeacon, beacon_heard}
use rin_windows.Samples.JsonTree.{json, json_laws}

abbrev laptop : UdpBeacon
laptop = record {
  mesh_name = lit "Home";
  public_key = lit "AAAA";
  device_name = lit "Lap";
  tcp_port = pos 45990;
}

laptop-IsSendable : IsSendableBeacon json laptop
unfolding json lit
laptop-IsSendable = record {
  mesh_name = refl;
  public_key = refl;
  device_name = refl;
  port = omega arith;
  keyed = refl;
}

abbrev enter_peer : DiscoveredPeer → World → World
enter_peer = on_peer_discovered (pos 9) none

beacon_heard_example :
    (line : Str) × (beacon_payload json (pos 7) laptop ≡ some line)
    × (listen_step json enter_peer (lit "BBBB") (some (line, lit "10.0.0.4")) (fresh_world []) ≡ (
        if str_eq (lit "AAAA") (lit "BBBB")
        then (fresh_world [])
        else enter_peer (announced (lit "10.0.0.4") laptop) (fresh_world [])))
beacon_heard_example =
    beacon_heard json json_laws enter_peer (pos 7) laptop (lit "BBBB") (lit "10.0.0.4")
      (fresh_world []) laptop-IsSendable

abbrev heard_line : Str
heard_line = elim (beacon_payload json (pos 7) laptop) [ none ↦ [] | some line ↦ line ]

listen_step-Foreign_example :
    (listen_step json enter_peer (lit "BBBB") (some (heard_line, lit "10.0.0.4")) (fresh_world [])
      ≡ fresh_world [])
    ⊎ ((peer : DiscoveredPeer) × (listen_step json enter_peer
            (lit "BBBB")
            (some (heard_line, lit "10.0.0.4"))
            (fresh_world [])
          ≡ enter_peer peer (fresh_world []))
        × IsForeign (lit "BBBB") (lit "10.0.0.4") peer)
listen_step-Foreign_example =
    listen_step-Foreign (lit "BBBB") (lit "10.0.0.4") json enter_peer heard_line (fresh_world [])
