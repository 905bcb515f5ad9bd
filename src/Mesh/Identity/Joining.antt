-- ===== src/Mesh/Identity/Joining.antt =====
-- What a join leaves of the identity (MeshEngine::complete_join_handshake, src/mesh_engine.cpp).
use rin_windows.Base.{
  Str, lit, str_eq, str_eq_sound, [], ◌∷◌, Bool-cases, inl, inr, str_eq_ne, ℤ, ◌≡◌, ◌≢◌, refl, sym,
  ap, ◌∙◌, Option, none, some, Result, ok, err,
}
use rin_windows.Protocol.{QrJoinToken}
use rin_windows.Protocol.Json.{JsonLib}
use rin_windows.Crypto.OpenSsl.{OpenSsl}
use rin_windows.Audit.Entries.{handshake_initiated}
use rin_windows.Device.{MeshIdentity, DiscoveredPeer}
use rin_windows.Persistence.{Db, upsert_device, save_identity}
use rin_windows.World.{World, audit, log_event}
use rin_windows.Mesh.Devices.{persisted, persist_in, persist, set_device, on_peer_discovered}
use rin_windows.Mesh.Outbox.{Outside}
use rin_windows.Mesh.Identity.Handshake.{
  host_device, new_secret, save_secret, adopt_secret, enter_mesh, join_at, complete_join_handshake,
}
use rin_windows.Mesh.Keyed.Starts.{answer_host-Keeps}

persisted-identity :
    (now : ℤ) (c : Str) (r : Result Db) (w : World) → (persisted now c r w).identity ≡ w.identity
unfolding persisted audit
persisted-identity now c (ok db) w = refl
persisted-identity now c (err e) w = refl

persist_in-identity :
    (now : ℤ) (c : Str) (op : Db → Result Db) (o : Option Db) (w : World)
    → (persist_in now c op o w).identity ≡ w.identity
unfolding persist_in
persist_in-identity now c op none w = refl
persist_in-identity now c op (some db) w = persisted-identity now c (op db) w

persist-identity :
    (now : ℤ) (c : Str) (op : Db → Result Db) (w : World)
    → (persist now c op w).identity ≡ w.identity
unfolding persist
persist-identity now c op w = persist_in-identity now c op w.store w

saved_secret : Option Str → Str → Str
saved_secret none own = own
saved_secret (some secret) own = secret

-- The secret after a join: the token's, if it has one that is not empty.
abbrev pub joined_secret : Option Str → Str → Str
joined_secret none own = own
joined_secret (some []) own = own
joined_secret (some (c ∷ secret)) own = c ∷ secret

saved_secret-new_secret :
    (o : Option Str) (own : Str) → saved_secret (new_secret o own) own ≡ joined_secret o own
unfolding saved_secret new_secret
saved_secret-new_secret none own = refl
saved_secret-new_secret (some []) own = refl
saved_secret-new_secret (some (c ∷ secret)) own = elim (Bool-cases (str_eq (c ∷ secret) own)) [
  | inl same ↦ rw (same, saved_secret) (sym (str_eq_sound (c ∷ secret) own same))
  | inr other ↦ rw (other, saved_secret) refl
]

-- The identity of a device that joins with a token: the token's secret, if there is one, that is not
-- empty, takes the place of its own, and nothing else changes.
abbrev pub adopted : QrJoinToken → MeshIdentity → MeshIdentity
adopted token i = record i { mesh_secret = joined_secret token.mesh_secret i.mesh_secret }

abbrev pub identity_after : QrJoinToken → Option Str → MeshIdentity → MeshIdentity
identity_after token none i = i
identity_after token (some ip) i = adopted token i

module _ (J : JsonLib) (O : OpenSsl) (out : Outside) (token : QrJoinToken) where
  save_secret-identity :
      (o : Option Str) (w : World)
      → (save_secret J O out o w).identity
        ≡ record w.identity { mesh_secret = saved_secret o w.identity.mesh_secret }
  unfolding save_secret saved_secret
  save_secret-identity none w = refl
  save_secret-identity (some secret) w =
      let identity : MeshIdentity = record w.identity { mesh_secret = secret } in
      persist-identity out.now (lit "Failed to persist updated mesh secret: ")
        (save_identity out.identity_io identity) (record w { identity = identity })

  adopt_secret-identity :
      (w : World) → (adopt_secret J O out token w).identity ≡ adopted token w.identity
  unfolding adopt_secret
  adopt_secret-identity w =
      save_secret-identity (new_secret token.mesh_secret w.identity.mesh_secret) w
      ∙ ap (λ (s : Str). record w.identity { mesh_secret = s })
          (saved_secret-new_secret token.mesh_secret w.identity.mesh_secret)

  enter_mesh-identity :
      (ip : Str) (w : World) → (enter_mesh J O out token ip w).identity ≡ adopted token w.identity
  unfolding enter_mesh set_device audit
  enter_mesh-identity ip w =
      let entered : World = set_device (host_device token ip) (
        audit (handshake_initiated out.now ip token.host_device_name (some token.ephemeral_token))
          w) in
      let saved : World =
        persist out.now (lit "Failed to persist joined device: ")
          (upsert_device out.device_io (host_device token ip)) entered in
      adopt_secret-identity saved
      ∙ ap (adopted token) (
          persist-identity out.now (lit "Failed to persist joined device: ")
            (upsert_device out.device_io (host_device token ip)) entered)

  join_at-identity :
      (o : Option Str) (w : World)
      → (join_at J O out token o w).1.identity ≡ identity_after token o w.identity
  unfolding join_at log_event
  join_at-identity none w = refl
  join_at-identity (some ip) w =
      let entered : World = enter_mesh J O out token ip w in
      ((answer_host-Keeps J O out entered token ip).after entered (refl, refl, refl)).1
      ∙ enter_mesh-identity ip w

  identity_after-mesh_name :
      (o : Option Str) (i : MeshIdentity) → (identity_after token o i).mesh_name ≡ i.mesh_name
  identity_after-mesh_name none i = refl
  identity_after-mesh_name (some ip) i = refl

  -- A join with a token that has an address, however it ends, makes the token's secret, if it has one
  -- that is not empty, the secret of the identity; nothing else of the identity changes, and without
  -- an address or a secret nothing does. The name of the mesh stays the device's own. So if the host's mesh has another name, the beacons of that
  -- mesh are ignored after the join as before.
  pub complete_join_handshake-identity :
      (w : World)
      → ((complete_join_handshake J O out token w).1.identity
          ≡ identity_after token token.host_ip w.identity)
        × (token.mesh_name ≢ w.identity.mesh_name
            → (now : ℤ) (io : Option Str) (peer : DiscoveredPeer) → peer.mesh_name ≡ token.mesh_name
            → on_peer_discovered now io peer (complete_join_handshake J O out token w).1
              ≡ (complete_join_handshake J O out token w).1)
  unfolding complete_join_handshake on_peer_discovered
  complete_join_handshake-identity w =
      let same = join_at-identity token.host_ip w in
      (
        same,
        λ other now io peer its.
            let name : (join_at J O out token token.host_ip w).1.identity.mesh_name
                ≡ w.identity.mesh_name =
              ap (λ (i : MeshIdentity). i.mesh_name) same
              ∙ identity_after-mesh_name token.host_ip w.identity in
            rw
              (str_eq_ne peer.mesh_name (join_at J O out token token.host_ip w).1.identity.mesh_name
                (λ e. other (sym its ∙ e ∙ name)))
              refl,
      )
