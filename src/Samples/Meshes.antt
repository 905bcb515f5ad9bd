-- ===== src/Samples/Meshes.antt =====
-- The properties of src/mesh_engine.cpp, at concrete values.
use rin_windows.Base.{
  ℕ, ◌≡◌, ◌≢◌, ◌⊎◌, refl, Str, lit, str_eq, pos, true, false, none, some, [], ◌∷◌, ◌++◌, replicate,
  ok, arith, if◌then◌else◌,
}
use rin_windows.Base.Dict.{lookup}
use rin_windows.Protocol.{clipboard_sync, browser_handoff, MeshPacket}
use rin_windows.Protocol.Wire.{packet_from_wire_json}
use rin_windows.Protocol.RoundTrip.Packets.{packet_round_trip}
use rin_windows.Device.{blank_identity, DiscoveredPeer}
use rin_windows.Crypto.OpenSsl.{Bytes, AreBytes}
use rin_windows.Crypto.Keys.{derive_peer_session_key}
use rin_windows.Audit.{MeshAuditLogger}
use rin_windows.World.{World, fresh_world}
use rin_windows.Files.Storage.{fine}
use rin_windows.Transport.{acknowledged}
use rin_windows.Mesh.Devices.{on_peer_discovered}
use rin_windows.Mesh.Devices.Table.{heard, SameBeside, on_peer_discovered-lookup}
use rin_windows.Mesh.Inbox.{Surroundings, signature_valid, is_plaintext, decrypt_packet_payload}
use rin_windows.Mesh.Inbox.Dispatch.{dispatch, on_packet_received}
use rin_windows.Mesh.Inbox.Trust.{Authentic, on_packet_received-Authentic}
use rin_windows.Mesh.Outbox.{Outside, seal, packet_of}
use rin_windows.Mesh.Outbox.Handoff.{targeted_packet_opens}
use rin_windows.Mesh.Service.{incoming}
use rin_windows.Mesh.Service.Admission.{incoming_lem}
use rin_windows.Crypto.Payload.RoundTrip.{IsSealable}
use rin_windows.Crypto.Keys.{KeyPair}
use rin_windows.Persistence.{Db}
use rin_windows.Mesh.Identity.{begin_mesh, identity_of, try_load_persisted}
use rin_windows.Mesh.Identity.Restart.{next_start, restart_restores}
use rin_windows.Samples.JsonTree.{json, json_laws}
use rin_windows.Samples.ToySsl.{ssl, generated, block_laws, mac_laws, gcm_laws, key_laws, sign_laws}
use rin_windows.Samples.Messages.{clip, clip-IsSendable}

abbrev pub quiet : Surroundings
quiet = record {
  now = pos 9;
  open_clipboard = true;
  global_alloc = true;
  global_lock = true;
  set_clipboard_data = true;
  shell_execute = pos 42;
  files = fine;
  sqlite = none;
}

abbrev pub start : World
start = fresh_world []

abbrev pub tablet_peer : DiscoveredPeer
tablet_peer = record {
  mesh_name = [];
  public_key = lit "K7";
  device_name = lit "Tab";
  ip = lit "10.0.0.7";
  port = pos 45990;
}

on_peer_discovered-lookup_example :
    (tablet_peer.mesh_name ≢ [] → on_peer_discovered (pos 9) none tablet_peer start ≡ start)
    × (tablet_peer.mesh_name ≡ []
        → SameBeside start (on_peer_discovered (pos 9) none tablet_peer start)
          × ((k : Str)
              → lookup k (on_peer_discovered (pos 9) none tablet_peer start).devices ≡ (
                  if str_eq (lit "K7") k
                  then some (heard tablet_peer (lookup (lit "K7") start.devices))
                  else lookup k start.devices)))
on_peer_discovered-lookup_example = on_peer_discovered-lookup (pos 9) none tablet_peer start

clip-sealed : is_plaintext ssl clipboard_sync ≡ false
unfolding is_plaintext
clip-sealed = refl

on_packet_received-Authentic_example :
    ((l : MeshAuditLogger) × (on_packet_received json ssl (lit "C:/dl") quiet clip start
        ≡ (ok tt, record start { logger = l })))
    ⊎ ((plain : Str) × (l : MeshAuditLogger) × Authentic ssl clip start plain
        × (on_packet_received json ssl (lit "C:/dl") quiet clip start
            ≡ dispatch json ssl
                (lit "C:/dl")
                quiet
                clipboard_sync
                clip
                plain
                (record start { logger = l })))
on_packet_received-Authentic_example =
    on_packet_received-Authentic json ssl (lit "C:/dl") quiet clip start clip-sealed

abbrev line : Str
line = (packet_round_trip json json_laws clip (pos 9) clip-IsSendable).0

incoming_lem_example :
    ((l : MeshAuditLogger) × (incoming json ssl (lit "C:/dl") quiet true line start
        ≡ record start { logger = l }))
    ⊎ ((packet : MeshPacket) × (l : MeshAuditLogger) × (packet_from_wire_json json (pos 9) line
          ≡ some packet)
        × (signature_valid ssl packet ≡ true)
        × (incoming json ssl (lit "C:/dl") quiet true line start
            ≡ (on_packet_received json ssl
                (lit "C:/dl")
                quiet
                packet
                (record start { logger = l; acks = [] ++ packet.sequence ∷ [] })).1))
incoming_lem_example = incoming_lem json ssl (lit "C:/dl") quiet true line start

abbrev pub net : Outside
net = record {
  now = pos 9;
  random = λ k. some (replicate 12 k);
  nonce = λ k. k;
  contact = λ k. acknowledged (pos 3);
  identity_io = none;
  device_io = none;
}

abbrev pub owner : ℕ → World
owner e = record start {
  identity = record blank_identity {
    local_public_key = (generated e).0.public_key_b64;
    local_private_key = (generated e).0.private_key_b64;
  };
}

handoff-sealed : is_plaintext ssl browser_handoff ≡ false
unfolding is_plaintext
handoff-sealed = refl

handoff-IsSealable : IsSealable ssl block_laws gcm_laws (lit "http://a.b")
unfolding lit
handoff-IsSealable = omega arith

handoff-AreBytes : AreBytes (lit "http://a.b")
unfolding lit
handoff-AreBytes = omega arith

targeted_packet_opens_example :
    (key : Bytes) × (sealed : Str × Str) × (derive_peer_session_key ssl
        (generated 5).0.private_key_b64
        (generated 9).0.public_key_b64
        (some (lit "sess_1"))
      ≡ ok key)
    × (seal json ssl net (lit "http://a.b") key (owner 5)
        ≡ (ok sealed, record (owner 5) { draws = 2 }))
    × (signature_valid ssl (
          packet_of json ssl net browser_handoff
            (lit "sess_1")
            (pos 4)
            (some (generated 9).0.public_key_b64)
            sealed
            (owner 5))
        ≡ true)
    × (l : MeshAuditLogger) × (decrypt_packet_payload ssl
          (pos 10)
          (packet_of json ssl net browser_handoff
            (lit "sess_1")
            (pos 4)
            (some (generated 9).0.public_key_b64)
            sealed
            (owner 5))
          (owner 9)
        ≡ (ok (lit "http://a.b"), record (owner 9) { logger = l }))
targeted_packet_opens_example =
    targeted_packet_opens json ssl block_laws mac_laws gcm_laws key_laws sign_laws net 5 9
      (generated 5).0 (generated 9).0 browser_handoff (lit "sess_1") (lit "http://a.b") (pos 4)
      (pos 10) (replicate 12 0) (owner 5) (owner 9) (generated 5).1 (generated 9).1 refl refl refl
      refl handoff-sealed refl refl (omega arith) handoff-AreBytes handoff-IsSealable

abbrev pub empty_db : Db
empty_db = record { mesh_identity = none; trusted_devices = [] }

abbrev pair : KeyPair
pair = record {
  public_key_b64 = lit "QQ==";
  private_key_b64 = lit "Qg==";
  fingerprint = lit "key:1";
}

restart_restores_example :
    (db' : Db) × ((begin_mesh json ssl net
        (next_start (lit "f") none empty_db)
        []
        (lit "Desk")
        pair
        (lit "s3")
        (record start { store = some empty_db })).store
      ≡ some db')
    × (v' : World) × (try_load_persisted (pos 20) (next_start (lit "f") none db') start
        ≡ (ok true, v'))
    × (v'.identity ≡ identity_of [] (lit "Desk") pair (lit "s3"))
unfolding lit
restart_restores_example =
    restart_restores json ssl net (next_start (lit "f") none empty_db) [] (lit "Desk") (lit "s3")
      pair empty_db (record start { store = some empty_db }) start (pos 20) (lit "f") none refl refl
      refl
      (record {
        mesh_name = omega arith;
        local_device_name = omega arith;
        local_public_key = omega arith;
        local_private_key = omega arith;
        local_fingerprint = omega arith;
        mesh_secret = omega arith;
      })
