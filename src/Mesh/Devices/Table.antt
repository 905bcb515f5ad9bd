-- ===== src/Mesh/Devices/Table.antt =====
-- The table of devices, key by key, after discovery, revocation and heartbeats
-- (src/mesh_engine.cpp).
use rin_windows.Base.{
  Str, lit, str_eq, str_eq_self, str_eq_ne, true, ◌≢◌, ℤ, ◌≡◌, refl, ap, ◌∙◌, Option, none, some,
  Result, ok, err, if◌then◌else◌,
}
use rin_windows.Base.Dict.{lookup, erase, lookup-insert, lookup-erase}
use rin_windows.Protocol.{connected}
use rin_windows.Device.{TrustedDevice, DiscoveredPeer}
use rin_windows.Persistence.{Db, upsert_device, remove_device}
use rin_windows.World.{World, audit, log_event}
use rin_windows.Mesh.Devices.{
  persisted, persist_in, persist, set_device, device_of_peer, refresh_device, add_peer,
  discovered_peer, on_peer_discovered, forget_device,
}

pub persisted-devices :
    (now : ℤ) (c : Str) (r : Result Db) (w : World) → (persisted now c r w).devices ≡ w.devices
unfolding persisted audit
persisted-devices now c (ok db) w = refl
persisted-devices now c (err e) w = refl

persist_in-devices :
    (now : ℤ) (c : Str) (op : Db → Result Db) (o : Option Db) (w : World)
    → (persist_in now c op o w).devices ≡ w.devices
unfolding persist_in
persist_in-devices now c op none w = refl
persist_in-devices now c op (some db) w = persisted-devices now c (op db) w

pub persist-devices :
    (now : ℤ) (c : Str) (op : Db → Result Db) (w : World) → (persist now c op w).devices ≡ w.devices
unfolding persist
persist-devices now c op w = persist_in-devices now c op w.store w

-- The entry of a peer that was heard: new, or with what it had before but its address.
abbrev pub heard : DiscoveredPeer → Option TrustedDevice → TrustedDevice
heard peer none = device_of_peer peer
heard peer (some device) = record device {
  ip_address = some peer.ip;
  port = peer.port;
  connection_state = connected;
}

discovered_peer-lookup :
    (now : ℤ) (io : Option Str) (peer : DiscoveredPeer) (o : Option TrustedDevice) (w : World)
    (k : Str)
    → lookup k (discovered_peer now io peer o w).devices
      ≡ (if str_eq peer.public_key k then some (heard peer o) else lookup k w.devices)
unfolding discovered_peer refresh_device add_peer set_device audit log_event
discovered_peer-lookup now io peer none w k =
    ap (lookup k) (
      persist-devices now (lit "Failed to persist discovered device: ")
        (upsert_device io (device_of_peer peer)) (set_device (device_of_peer peer) w))
    ∙ lookup-insert peer.public_key k _ w.devices
discovered_peer-lookup now io peer (some device) w k = lookup-insert peer.public_key k _ w.devices

-- All but the table, its copy in the store and what is logged is as before.
abbrev pub SameBeside : World → World → Type 0
SameBeside v w =
    w ≡ record v { devices = w.devices; store = w.store; events = w.events; logger = w.logger }

persisted-SameBeside :
    (now : ℤ) (c : Str) (r : Result Db) (v w : World)
    → SameBeside v w
    → SameBeside v (persisted now c r w)
unfolding persisted audit
persisted-SameBeside now c (ok db) v w h = ap (λ (u : World). record u { store = some db }) h
persisted-SameBeside now c (err e) v w h =
    ap (λ (u : World). record u { logger = (persisted now c (err e) w).logger }) h

persist_in-SameBeside :
    (now : ℤ) (c : Str) (op : Db → Result Db) (o : Option Db) (v w : World)
    → SameBeside v w
    → SameBeside v (persist_in now c op o w)
unfolding persist_in
persist_in-SameBeside now c op none v w h = h
persist_in-SameBeside now c op (some db) v w h = persisted-SameBeside now c (op db) v w h

discovered_peer-SameBeside :
    (now : ℤ) (io : Option Str) (peer : DiscoveredPeer) (o : Option TrustedDevice) (w : World)
    → SameBeside w (discovered_peer now io peer o w)
unfolding discovered_peer refresh_device add_peer set_device persist audit log_event
discovered_peer-SameBeside now io peer none w =
    let added : World = set_device (device_of_peer peer) w in
    ap
      (λ (u : World). record u {
        events = (discovered_peer now io peer none w).events;
        logger = (discovered_peer now io peer none w).logger;
      })
      (persist_in-SameBeside now (lit "Failed to persist discovered device: ")
        (upsert_device io (device_of_peer peer)) added.store w added refl)
discovered_peer-SameBeside now io peer (some device) w = refl

-- A beacon of another mesh changes nothing. One of this mesh connects the peer at its address: a
-- known device keeps everything else (also when it is this device), an unknown one is trusted as it
-- says it is. No other key's entry changes, whatever the database answers, and beside the table, the
-- store and the logs nothing does.
pub on_peer_discovered-lookup :
    (now : ℤ) (io : Option Str) (peer : DiscoveredPeer) (w : World)
    → (peer.mesh_name ≢ w.identity.mesh_name → on_peer_discovered now io peer w ≡ w)
      × (peer.mesh_name ≡ w.identity.mesh_name
          → SameBeside w (on_peer_discovered now io peer w)
            × ((k : Str)
                → lookup k (on_peer_discovered now io peer w).devices ≡ (
                    if str_eq peer.public_key k
                    then some (heard peer (lookup peer.public_key w.devices))
                    else lookup k w.devices)))
unfolding on_peer_discovered
on_peer_discovered-lookup now io peer w = (
  λ other. rw (str_eq_ne peer.mesh_name w.identity.mesh_name other) refl,
  λ same.
      let here : str_eq peer.mesh_name w.identity.mesh_name ≡ true =
        ap (λ (n : Str). str_eq n w.identity.mesh_name) same ∙ str_eq_self w.identity.mesh_name in
      (
        rw here (discovered_peer-SameBeside now io peer (lookup peer.public_key w.devices) w),
        λ k. rw here (discovered_peer-lookup now io peer (lookup peer.public_key w.devices) w k),
      ),
)

pub forget_device-lookup :
    (now : ℤ) (io : Option Str) (c key : Str) (w : World) (k : Str)
    → lookup k (forget_device now io c key w).devices
      ≡ (if str_eq key k then none else lookup k w.devices)
unfolding forget_device
forget_device-lookup now io c key w k =
    ap (lookup k)
      (persist-devices now c (remove_device io key) (record w { devices = erase key w.devices }))
    ∙ lookup-erase key k w.devices
