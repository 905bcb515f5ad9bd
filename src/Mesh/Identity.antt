-- ===== src/Mesh/Identity.antt =====
-- The identity of this device (src/mesh_engine.cpp): created, or loaded from the store.
pub mod Handshake
pub mod Joining
pub mod Restart
use rin_windows.Base.{
  ℕ, suc, Str, lit, str_eq, is_empty, contains, to_lower, ℤ, pos, Bool, true, false, not, ◌||◌,
  ◌&&◌, Option, none, some, List, [], ◌∷◌, ◌++◌, map, Result, ok, err, what, if◌then◌else◌,
}
use rin_windows.Base.Act.{Act, pure, lift, gets, modify, resume, ◌>>=◌, ◌>>◌}
use rin_windows.Base.Dict.{Dict, insert}
use rin_windows.Protocol.{
  join_accept, QrJoinToken, PlatformType, android, windows, mac_os, tablet, connected, active, lan,
}
use rin_windows.Protocol.Json.{JsonLib}
use rin_windows.Crypto.OpenSsl.{OpenSsl, Bytes}
use rin_windows.Crypto.Hex.{generate_ephemeral_secret}
use rin_windows.Crypto.Keys.{KeyPair, generate_identity_keypair}
use rin_windows.Audit.{security_warning, connection}
use rin_windows.Audit.Entries.{plain, connection_failed, handshake_initiated, handshake_completed}
use rin_windows.Device.{MeshIdentity, TrustedDevice, blank_device, default_tcp_port}
use rin_windows.Persistence.{
  Disk, Db, open_store, save_identity, load_identity, upsert_device, load_all_devices,
}
use rin_windows.World.{World, audit, log_event}
use rin_windows.Mesh.Devices.{persisted, persist, set_device}
use rin_windows.Mesh.Outbox.{Outside, draw, mesh_key, seal, new_session_id, send_sealed}

-- The database file of a start: its path, what opening it answers, and what it holds.
pub record Storage : Type 0 where
  pub path : Str
  pub open_io : Option Str
  pub identity_io : Option Str
  pub devices_io : Option Str
  pub disk : Disk

-- devices_[device.public_key] = device, for each
unfoldable pub table_of : List TrustedDevice → Dict TrustedDevice → Dict TrustedDevice
table_of [] table = table
table_of (d ∷ ds) table = table_of ds (insert d.public_key d table)

unfoldable pub loaded_devices : ℤ → Result (List TrustedDevice) → World → World
unfolding audit plain table_of
loaded_devices now (ok devices) w = record w { devices = table_of devices [] }
loaded_devices now (err e) w =
    audit
      (plain now security_warning connection
        (lit "Loaded identity but failed to load trusted devices: " ++ what e) none)
      w

-- An exception of load_identity escapes; nothing saved is no error.
unfoldable pub loaded_identity :
    ℤ → Option Str → Db → Result (Option MeshIdentity) → World → Result Bool × World
unfolding loaded_devices log_event
loaded_identity now io db (err e) w = (err e, w)
loaded_identity now io db (ok none) w = (ok false, w)
loaded_identity now io db (ok (some identity)) w = (
  ok true,
  log_event now
      (lit "Loaded saved mesh \""
        ++ (identity.mesh_name
            ++ (lit "\" (fingerprint " ++ (identity.local_fingerprint ++ lit ")"))))
      (loaded_devices now (load_all_devices io db) (record w { identity = identity })),
)

unfoldable pub opened_store : ℤ → Storage → Result Db → World → Result Bool × World
unfolding loaded_identity audit plain
opened_store now s (ok db) w =
    loaded_identity now s.devices_io db (load_identity s.identity_io db)
      (record w { store = some db })
opened_store now s (err e) w = (
  ok false,
  audit
      (plain now security_warning connection
        (lit "Could not open persistence store at '"
          ++ (s.path ++ (lit "': " ++ (what e ++ lit " -- continuing without saved state."))))
        none)
      (record w { store = none }),
)

unfoldable pub try_load_persisted : ℤ → Storage → World → Result Bool × World
unfolding opened_store
try_load_persisted now s w = opened_store now s (open_store s.path s.open_io s.disk) w

abbrev pub identity_of : Str → Str → KeyPair → Str → MeshIdentity
identity_of mesh_name device_name keys mesh_secret = record {
  mesh_name = if is_empty mesh_name then lit "My Mesh" else mesh_name;
  local_device_name = device_name;
  local_public_key = keys.public_key_b64;
  local_private_key = keys.private_key_b64;
  local_fingerprint = keys.fingerprint;
  mesh_secret = mesh_secret;
  port = pos default_tcp_port;
}

abbrev pub self_device : Str → KeyPair → TrustedDevice
self_device device_name keys = record blank_device {
  public_key = keys.public_key_b64;
  name = device_name ++ lit " (This Device)";
  platform = windows;
  connection_state = active;
  active_rail = lan;
  is_self = true;
}

-- `if (!store_) try { ... } catch { reset }`
unfoldable pub ensure_store : Option Db → Storage → World → World
ensure_store (some db) s w = w
ensure_store none s w = elim (open_store s.path s.open_io s.disk) [
  | ok db ↦ record w { store = some db }
  | err e ↦ w
]

-- Both statements stand in one `try`: after a failure of the first there is no second.
unfoldable pub save_self : ℤ → Option Str → TrustedDevice → Result Db → World → World
unfolding persisted
save_self now io self (ok db) w =
    persisted now (lit "Failed to persist new mesh identity: ") (upsert_device io self db)
      (record w { store = some db })
save_self now io self (err e) w =
    persisted now (lit "Failed to persist new mesh identity: ") (err e) w

unfoldable pub save_new : Outside → MeshIdentity → TrustedDevice → Option Db → World → World
unfolding save_self
save_new out identity self none w = w
save_new out identity self (some db) w =
    save_self out.now out.device_io self (save_identity out.identity_io identity db) w

module _ (J : JsonLib) (O : OpenSsl) (out : Outside) where
  -- The new identity and its own entry in the table, saved where a store can be had.
  unfoldable pub begin_mesh : Storage → Str → Str → KeyPair → Str → World → World
  unfolding set_device ensure_store save_new log_event
  begin_mesh s mesh_name device_name keys mesh_secret w =
      let identity = identity_of mesh_name device_name keys mesh_secret in
      let self = self_device device_name keys in
      let entered = set_device self (record w { identity = identity }) in
      log_event out.now
        (lit "Mesh \""
          ++ (identity.mesh_name
              ++ (lit "\" initialized locally (fingerprint "
                  ++ (identity.local_fingerprint ++ lit ")"))))
        (save_new out identity self (ensure_store entered.store s entered).store
          (ensure_store entered.store s entered))

  unfoldable pub create_initial_mesh : Storage → Str → Str → Act World (Unit {0})
  unfolding begin_mesh draw
  create_initial_mesh s mesh_name device_name = do
    e ← draw
    keys ← lift (generate_identity_keypair O (out.nonce e))
    k ← draw
    mesh_secret ← lift (generate_ephemeral_secret O (out.random k))
    modify (begin_mesh s mesh_name device_name keys mesh_secret)
