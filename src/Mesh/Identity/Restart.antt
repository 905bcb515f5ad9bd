-- ===== src/Mesh/Identity/Restart.antt =====
-- A mesh that was created is found again at the next start (src/mesh_engine.cpp).
use rin_windows.Base.{
  Str, lit, ℤ, Bool, true, ◌≡◌, refl, sym, ap, subst, ◌∙◌, Option, none, some, [], Result, ok, err,
}
use rin_windows.Protocol.Json.{JsonLib}
use rin_windows.Crypto.OpenSsl.{OpenSsl}
use rin_windows.Crypto.Keys.{KeyPair}
use rin_windows.Device.{MeshIdentity, TrustedDevice}
use rin_windows.Persistence.Rows.{identity_row, device_row}
use rin_windows.Persistence.{
  Disk, Db, fail_or, apply_schema, open_store, save_identity, load_identity, upsert_row,
  upsert_device, load_all_devices,
}
use rin_windows.Persistence.Laws.{IsStorableIdentity, load_identity-save_identity}
use rin_windows.World.{World, audit, log_event}
use rin_windows.Mesh.Devices.{persisted, set_device}
use rin_windows.Mesh.Outbox.{Outside}
use rin_windows.Mesh.Identity.{
  Storage, loaded_devices, loaded_identity, opened_store, try_load_persisted, identity_of,
  self_device, ensure_store, save_self, save_new, begin_mesh,
}

-- The file of a database that was closed.
abbrev pub closed : Db → Disk
closed db = record {
  mesh_identity_table = some db.mesh_identity;
  trusted_devices_table = some db.trusted_devices;
}

-- A start from that file.
abbrev pub next_start : Str → Option Str → Db → Storage
next_start path devices_io db = record {
  path = path;
  open_io = none;
  identity_io = none;
  devices_io = devices_io;
  disk = closed db;
}

loaded_devices-identity :
    (now : ℤ) (r : rin_windows.Base.Result (rin_windows.Base.List TrustedDevice)) (w : World)
    → (loaded_devices now r w).identity ≡ w.identity
unfolding loaded_devices audit
loaded_devices-identity now (ok devices) w = refl
loaded_devices-identity now (err e) w = refl

loaded_lem :
    (now : ℤ) (io : Option Str) (db : Db) (i : MeshIdentity) (r : Result (Option MeshIdentity))
    (v : World)
    → r ≡ ok (some i)
    → (v' : World) × (loaded_identity now io db r v ≡ (ok true, v')) × (v'.identity ≡ i)
unfolding loaded_identity log_event
loaded_lem now io db i r v h = (
  _,
  ap (λ (x : Result (Option MeshIdentity)). loaded_identity now io db x v) h,
  loaded_devices-identity now (load_all_devices io db) (record v { identity = i }),
)

saved : MeshIdentity → TrustedDevice → Db → Db
saved i self db = record {
  mesh_identity = some (identity_row i);
  trusted_devices = upsert_row (device_row self) db.trusted_devices;
}

save_new-store :
    (out : Outside) (i : MeshIdentity) (self : TrustedDevice) (db : Db) (w : World)
    → out.identity_io ≡ none
    → out.device_io ≡ none
    → (save_new out i self (some db) w).store ≡ some (saved i self db)
unfolding save_new save_self persisted save_identity upsert_device fail_or saved
save_new-store out i self db w i_io d_io = rw (i_io, d_io)

load_identity-saved :
    (i : MeshIdentity) (self : TrustedDevice) (db : Db)
    → IsStorableIdentity i
    → load_identity none (saved i self db) ≡ ok (some i)
unfolding saved save_identity load_identity fail_or
load_identity-saved i self db texts =
    let (db', written, read) = load_identity-save_identity i db texts in
    let same : record db { mesh_identity = some (identity_row i) } ≡ db' = cc in
    subst (λ (d : Db). load_identity none d ≡ ok (some i)) (sym same) read

opened_lem :
    (now : ℤ) (path : Str) (devices_io : Option Str) (db : Db) (v : World)
    → try_load_persisted now (next_start path devices_io db) v
      ≡ loaded_identity now devices_io db (load_identity none db) (record v { store = some db })
unfolding try_load_persisted opened_store open_store fail_or apply_schema
opened_lem now path devices_io db v = refl

module _ (J : JsonLib) (O : OpenSsl) (out : Outside) where
  -- The identity that create_initial_mesh makes, with no NUL byte in its texts, is saved in an open
  -- store that makes no error on the two statements, and try_load_persisted finds it in that file,
  -- also when the devices cannot be read.
  pub restart_restores :
      (s : Storage) (mesh_name device_name mesh_secret : Str) (keys : KeyPair) (db : Db)
      (w v : World) (now : ℤ) (path : Str) (devices_io : Option Str)
      → w.store ≡ some db
      → out.identity_io ≡ none
      → out.device_io ≡ none
      → IsStorableIdentity (identity_of mesh_name device_name keys mesh_secret)
      → (db' : Db) × ((begin_mesh J O out s mesh_name device_name keys mesh_secret w).store
          ≡ some db')
        × (v' : World) × (try_load_persisted now (next_start path devices_io db') v ≡ (ok true, v'))
        × (v'.identity ≡ identity_of mesh_name device_name keys mesh_secret)
  unfolding begin_mesh set_device log_event ensure_store
  restart_restores s mesh_name device_name mesh_secret keys db w v now path devices_io open_ i_io
        d_io texts =
      let i = identity_of mesh_name device_name keys mesh_secret in
      let self = self_device device_name keys in
      let entered = set_device self (record w { identity = i }) in
      let ensured =
        ap
          (λ (o : Option Db).
            (save_new out i self (ensure_store o s entered).store (ensure_store o s entered)).store)
          open_ in
      let kept = ap (λ (o : Option Db). (save_new out i self o entered).store) open_ in
      let (v', loaded, same) =
        loaded_lem now devices_io (saved i self db) i _
          (record v { store = some (saved i self db) }) (load_identity-saved i self db texts) in
      (
        saved i self db,
        ensured
            ∙ ensured_lem s entered db i self
            ∙ kept
            ∙ save_new-store out i self db entered i_io d_io,
        v',
        opened_lem now path devices_io (saved i self db) v ∙ loaded,
        same,
      )
    where
      ensured_lem :
          (s : Storage) (e : World) (db : Db) (i : MeshIdentity) (self : TrustedDevice)
          → (save_new out i self
              (ensure_store (some db) s e).store
              (ensure_store (some db) s e)).store
            ≡ (save_new out i self e.store e).store
      ensured_lem s e db i self = refl
