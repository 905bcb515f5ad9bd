-- ===== src/Mesh/Keyed/Starts.antt =====
-- Loading, creating and joining a mesh keep every device under its own key (src/mesh_engine.cpp).
use rin_windows.Base.{
  Str, lit, ℤ, ◌≡◌, refl, sym, subst, ◌∙◌, Option, none, some, List, [], ◌∷◌, Result, ok, err,
}
use rin_windows.Base.Act.{lift}
use rin_windows.Base.Act.Keeps.{Keeps, modify-Keeps, lift-Keeps, bind-Keeps}
use rin_windows.Base.Dict.{Dict, lookup, insert}
use rin_windows.Protocol.{QrJoinToken, join_accept}
use rin_windows.Protocol.Json.{JsonLib}
use rin_windows.Crypto.OpenSsl.{OpenSsl}
use rin_windows.Crypto.Keys.{KeyPair, generate_identity_keypair}
use rin_windows.Crypto.Hex.{generate_ephemeral_secret}
use rin_windows.Audit.Entries.{handshake_initiated}
use rin_windows.Device.{MeshIdentity, TrustedDevice}
use rin_windows.Persistence.{
  Db, open_store, load_identity, load_all_devices, upsert_device, save_identity,
}
use rin_windows.World.{World, audit, log_event}
use rin_windows.Mesh.Devices.{persist, set_device}
use rin_windows.Mesh.Devices.Table.{persist-devices, persisted-devices}
use rin_windows.Mesh.Outbox.{Outside, draw, mesh_key, seal, new_session_id, send_sealed}
use rin_windows.Mesh.Identity.{
  Storage, table_of, loaded_devices, loaded_identity, opened_store, try_load_persisted, self_device,
  identity_of, ensure_store, save_self, save_new, begin_mesh, create_initial_mesh,
}
use rin_windows.Mesh.Identity.Handshake.{
  host_device, save_secret, adopt_secret, new_secret, enter_mesh, join_result, answer_host, join_at,
  complete_join_handshake,
}
use rin_windows.Mesh.Keyed.{AreKeyed, insert-AreKeyed}
use rin_windows.Mesh.Keyed.Senders.{
  SameBase, SameBase-trans, mesh_key-Keeps, seal-Keeps, new_session_id-Keeps, send_sealed-Keeps,
}

table_of-AreKeyed :
    (devices : List TrustedDevice) (table : Dict TrustedDevice)
    → AreKeyed table
    → AreKeyed (table_of devices table)
unfolding table_of
table_of-AreKeyed [] table keyed = keyed
table_of-AreKeyed (d ∷ devices) table keyed =
    table_of-AreKeyed devices (insert d.public_key d table)
      (insert-AreKeyed d.public_key d table refl keyed)

loaded_devices-AreKeyed :
    (now : ℤ) (r : Result (List TrustedDevice)) (w : World)
    → AreKeyed w.devices
    → AreKeyed (loaded_devices now r w).devices
unfolding loaded_devices audit lookup
loaded_devices-AreKeyed now (ok devices) w keyed = table_of-AreKeyed devices [] (λ k d e. cc)
loaded_devices-AreKeyed now (err e) w keyed = keyed

loaded_identity-AreKeyed :
    (now : ℤ) (io : Option Str) (db : Db) (r : Result (Option MeshIdentity)) (w : World)
    → AreKeyed w.devices
    → AreKeyed (loaded_identity now io db r w).1.devices
unfolding loaded_identity log_event
loaded_identity-AreKeyed now io db (err e) w keyed = keyed
loaded_identity-AreKeyed now io db (ok none) w keyed = keyed
loaded_identity-AreKeyed now io db (ok (some identity)) w keyed =
    loaded_devices-AreKeyed now (load_all_devices io db) (record w { identity = identity }) keyed

opened_store-AreKeyed :
    (now : ℤ) (s : Storage) (r : Result Db) (w : World)
    → AreKeyed w.devices
    → AreKeyed (opened_store now s r w).1.devices
unfolding opened_store audit
opened_store-AreKeyed now s (ok db) w keyed =
    loaded_identity-AreKeyed now s.devices_io db (load_identity s.identity_io db)
      (record w { store = some db }) keyed
opened_store-AreKeyed now s (err e) w keyed = keyed

pub try_load_persisted-AreKeyed :
    (now : ℤ) (s : Storage) (w : World)
    → AreKeyed w.devices
    → AreKeyed (try_load_persisted now s w).1.devices
unfolding try_load_persisted
try_load_persisted-AreKeyed now s w keyed =
    opened_store-AreKeyed now s (open_store s.path s.open_io s.disk) w keyed

ensure_store-devices :
    (o : Option Db) (s : Storage) (w : World) → (ensure_store o s w).devices ≡ w.devices
unfolding ensure_store
ensure_store-devices (some db) s w = refl
ensure_store-devices none s w = by_result (open_store s.path s.open_io s.disk)
  where
    by_result :
        (r : Result Db)
        → (elim r as (λ x. World) [ ok db ↦ record w { store = some db } | err e ↦ w ]).devices
          ≡ w.devices
    by_result (ok db) = refl
    by_result (err e) = refl

save_self-devices :
    (now : ℤ) (io : Option Str) (self : TrustedDevice) (r : Result Db) (w : World)
    → (save_self now io self r w).devices ≡ w.devices
unfolding save_self
save_self-devices now io self (ok db) w =
    persisted-devices now (lit "Failed to persist new mesh identity: ") (upsert_device io self db)
      (record w { store = some db })
save_self-devices now io self (err e) w =
    persisted-devices now (lit "Failed to persist new mesh identity: ") (err e) w

save_new-devices :
    (out : Outside) (identity : MeshIdentity) (self : TrustedDevice) (o : Option Db) (w : World)
    → (save_new out identity self o w).devices ≡ w.devices
unfolding save_new
save_new-devices out identity self none w = refl
save_new-devices out identity self (some db) w =
    save_self-devices out.now out.device_io self (save_identity out.identity_io identity db) w

module _ (J : JsonLib) (O : OpenSsl) (out : Outside) where
  begin_mesh-AreKeyed :
      (s : Storage) (mesh_name device_name : Str) (keys : KeyPair) (secret : Str) (w : World)
      → AreKeyed w.devices
      → AreKeyed (begin_mesh J O out s mesh_name device_name keys secret w).devices
  unfolding begin_mesh set_device log_event
  begin_mesh-AreKeyed s mesh_name device_name keys secret w keyed =
      let self : TrustedDevice = self_device device_name keys in
      let entered : World =
        set_device self (record w { identity = identity_of mesh_name device_name keys secret }) in
      subst AreKeyed
        (sym (
          save_new-devices out (identity_of mesh_name device_name keys secret) self
            (ensure_store entered.store s entered).store (ensure_store entered.store s entered)
          ∙ ensure_store-devices entered.store s entered))
        (insert-AreKeyed self.public_key self w.devices refl keyed)

  draw-AreKeyed : Keeps (λ w. AreKeyed w.devices) draw
  unfolding draw
  draw-AreKeyed = record { after = λ w h. h }

  pub create_initial_mesh-AreKeyed :
      (s : Storage) (mesh_name device_name : Str)
      → Keeps (λ w. AreKeyed w.devices) (create_initial_mesh J O out s mesh_name device_name)
  unfolding create_initial_mesh
  create_initial_mesh-AreKeyed s mesh_name device_name = bind-Keeps draw _ draw-AreKeyed λ e.
      bind-Keeps (lift (generate_identity_keypair O (out.nonce e))) _ (lift-Keeps _) λ keys.
        bind-Keeps draw _ draw-AreKeyed λ k.
          bind-Keeps (lift (generate_ephemeral_secret O (out.random k))) _ (lift-Keeps _) λ secret.
            modify-Keeps (begin_mesh J O out s mesh_name device_name keys secret)
              (begin_mesh-AreKeyed s mesh_name device_name keys secret)

  save_secret-devices :
      (secret : Option Str) (w : World) → (save_secret J O out secret w).devices ≡ w.devices
  unfolding save_secret
  save_secret-devices none w = refl
  save_secret-devices (some secret) w =
      let identity : MeshIdentity = record w.identity { mesh_secret = secret } in
      persist-devices out.now (lit "Failed to persist updated mesh secret: ")
        (save_identity out.identity_io identity) (record w { identity = identity })

  adopt_secret-devices :
      (token : QrJoinToken) (w : World) → (adopt_secret J O out token w).devices ≡ w.devices
  unfolding adopt_secret
  adopt_secret-devices token w =
      save_secret-devices (new_secret token.mesh_secret w.identity.mesh_secret) w

  enter_mesh-AreKeyed :
      (token : QrJoinToken) (ip : Str) (w : World)
      → AreKeyed w.devices
      → AreKeyed (enter_mesh J O out token ip w).devices
  unfolding enter_mesh audit set_device
  enter_mesh-AreKeyed token ip w keyed =
      let entered : World = set_device (host_device token ip) (
        audit (handshake_initiated out.now ip token.host_device_name (some token.ephemeral_token))
          w) in
      let saved : World =
        persist out.now (lit "Failed to persist joined device: ")
          (upsert_device out.device_io (host_device token ip)) entered in
      subst AreKeyed
        (sym (
          adopt_secret-devices token saved
          ∙ persist-devices out.now (lit "Failed to persist joined device: ")
              (upsert_device out.device_io (host_device token ip)) entered))
        (insert-AreKeyed token.host_public_key (host_device token ip) w.devices refl keyed)

  join_result-devices :
      (token : QrJoinToken) (ip : Str) (o : Option ℤ) (w : World)
      → SameBase w (join_result J O out token ip o w).1
  unfolding join_result log_event audit
  join_result-devices token ip none w = (refl, refl, refl)
  join_result-devices token ip (some latency) w = (refl, refl, refl)

  pub answer_host-Keeps :
      (v : World) (token : QrJoinToken) (ip : Str)
      → Keeps (SameBase v) (answer_host J O out token ip)
  unfolding answer_host
  answer_host-Keeps v token ip = bind-Keeps (mesh_key J O out) _ (mesh_key-Keeps v J O out) λ key.
      bind-Keeps (seal J O out token.ephemeral_token key) _
        (seal-Keeps v J O out token.ephemeral_token key)
        λ sealed.
          bind-Keeps (new_session_id J O out) _ (new_session_id-Keeps v J O out) λ session_id.
            bind-Keeps
              (send_sealed J O out join_accept session_id (some token.host_public_key) sealed
                (host_device token ip) ip)
              (λ latency w.
                let (joined, u) = join_result J O out token ip latency w in (ok joined, u))
              (send_sealed-Keeps v J O out join_accept session_id (some token.host_public_key)
                sealed (host_device token ip) ip)
              λ latency. record {
                after = λ w h.
                    SameBase-trans v w (join_result J O out token ip latency w).1 h
                      (join_result-devices token ip latency w);
              }

  join_at-AreKeyed :
      (token : QrJoinToken) (o : Option Str) (w : World)
      → AreKeyed w.devices
      → AreKeyed (join_at J O out token o w).1.devices
  unfolding join_at log_event
  join_at-AreKeyed token none w keyed = keyed
  join_at-AreKeyed token (some ip) w keyed =
      let entered : World = enter_mesh J O out token ip w in
      subst AreKeyed (sym ((answer_host-Keeps entered token ip).after entered (refl, refl, refl)).0)
        (enter_mesh-AreKeyed token ip w keyed)

  pub complete_join_handshake-AreKeyed :
      (token : QrJoinToken) (w : World)
      → AreKeyed w.devices
      → AreKeyed (complete_join_handshake J O out token w).1.devices
  unfolding complete_join_handshake
  complete_join_handshake-AreKeyed token w keyed = join_at-AreKeyed token token.host_ip w keyed
