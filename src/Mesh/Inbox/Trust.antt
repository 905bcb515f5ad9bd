-- ===== src/Mesh/Inbox/Trust.antt =====
-- Which packets have an effect (src/mesh_engine.cpp).
use rin_windows.Base.{
  Str, str_eq, ℤ, Bool, true, false, ◌≡◌, ◌⊎◌, inl, inr, refl, ap, ◌∙◌, Option, some, Result, ok,
  err, returned_parts, ◌>>=◌, arith, if◌then◌else◌,
}
use rin_windows.Protocol.{MeshPacket}
use rin_windows.Protocol.Json.{JsonLib}
use rin_windows.Crypto.OpenSsl.{OpenSsl, Bytes}
use rin_windows.Crypto.Keys.{derive_peer_session_key, derive_mesh_encryption_key}
use rin_windows.Crypto.Payload.{decrypt_payload}
use rin_windows.Audit.{MeshAuditLogger}
use rin_windows.World.{World, audit}
use rin_windows.Mesh.Inbox.{
  Surroundings, is_targeted, peer_plain, peer_logged, broadcast_logged, broadcast_plain,
  decrypt_sealed, is_plaintext, decrypt_packet_payload,
}
use rin_windows.Mesh.Inbox.Dispatch.{dispatch, deliver, on_packet_received}

module _ (O : OpenSsl) where
  -- The text of a packet under the one key that it may be under.
  abbrev pub Authentic : MeshPacket → World → Str → Type 0
  Authentic packet w plain =
      ((is_targeted O packet w ≡ true)
        × (key : Bytes) × (derive_peer_session_key O w.identity.local_private_key packet.sender_key
              (some packet.session_id)
            ≡ ok key)
        × (decrypt_payload O packet.payload key ≡ ok plain))
      ⊎ ((is_targeted O packet w ≡ false)
          × (key : Bytes) × (derive_mesh_encryption_key O w.identity.mesh_secret
                w.identity.mesh_name
              ≡ ok key)
          × (decrypt_payload O packet.payload key ≡ ok plain))

  -- A text that is authentic, or an exception; the audit log is all that may have changed.
  abbrev Opened : MeshPacket → World → Result Str × World → Type 0
  Opened packet w out =
      ((e : rin_windows.Base.Exn) × (l : MeshAuditLogger) × (out
          ≡ (err e, record w { logger = l })))
      ⊎ ((plain : Str) × (l : MeshAuditLogger) × Authentic packet w plain
          × (out ≡ (ok plain, record w { logger = l })))

  peer_logged-Opened :
      (now : ℤ) (packet : MeshPacket) (w : World) (r : Result Str)
      → is_targeted O packet w ≡ true
      → peer_plain O packet w ≡ r
      → Opened packet w (peer_logged O now packet r w)
  unfolding peer_logged audit peer_plain
  peer_logged-Opened now packet w (ok plain) t h =
      let (key, derived, opened) =
        returned_parts
          (derive_peer_session_key O w.identity.local_private_key packet.sender_key
            (some packet.session_id))
          _ h in
      inr (plain, _, inl (t, key, derived, opened), refl)
  peer_logged-Opened now packet w (err e) t h = inl (e, _, refl)

  broadcast_logged-Opened :
      (now : ℤ) (packet : MeshPacket) (w : World) (key : Bytes) (r : Result Str)
      → is_targeted O packet w ≡ false
      → derive_mesh_encryption_key O w.identity.mesh_secret w.identity.mesh_name ≡ ok key
      → decrypt_payload O packet.payload key ≡ r
      → Opened packet w (broadcast_logged O now packet r w)
  unfolding broadcast_logged audit
  broadcast_logged-Opened now packet w key (ok plain) t d h =
      inr (plain, _, inr (t, key, d, h), refl)
  broadcast_logged-Opened now packet w key (err e) t d h = inl (e, _, refl)

  broadcast_plain-Opened :
      (now : ℤ) (packet : MeshPacket) (w : World) (r : Result Bytes)
      → is_targeted O packet w ≡ false
      → derive_mesh_encryption_key O w.identity.mesh_secret w.identity.mesh_name ≡ r
      → Opened packet w (broadcast_plain O now packet r w)
  unfolding broadcast_plain
  broadcast_plain-Opened now packet w (ok key) t d =
      broadcast_logged-Opened now packet w key _ t d refl
  broadcast_plain-Opened now packet w (err e) t d = inl (e, w.logger, refl)

  decrypt_sealed-Opened :
      (now : ℤ) (packet : MeshPacket) (w : World) (t : Bool)
      → is_targeted O packet w ≡ t
      → Opened packet w (decrypt_sealed O now packet t w)
  unfolding decrypt_sealed
  decrypt_sealed-Opened now packet w true h = peer_logged-Opened now packet w _ h refl
  decrypt_sealed-Opened now packet w false h = broadcast_plain-Opened now packet w _ h refl

module _ (J : JsonLib) (O : OpenSsl) (downloads : Str) (s : Surroundings) where
  -- Every packet that is not a greeting or a heartbeat either changes nothing but the audit log, or
  -- its payload decrypts: under the session key with its sender when it names this device, and then
  -- under no other, and under the mesh key when it does not. Only that text reaches the handlers.
  pub on_packet_received-Authentic :
      (packet : MeshPacket) (w : World)
      → is_plaintext O packet.type ≡ false
      → ((l : MeshAuditLogger) × (on_packet_received J O downloads s packet w
            ≡ (ok tt, record w { logger = l })))
        ⊎ ((plain : Str) × (l : MeshAuditLogger) × Authentic O packet w plain
            × (on_packet_received J O downloads s packet w
                ≡ dispatch J O downloads s packet.type packet plain (record w { logger = l })))
  unfolding on_packet_received decrypt_packet_payload deliver
  on_packet_received-Authentic packet w h = elim (decrypt_sealed-Opened O s.now packet w _ refl) [
    | inl (e, l, out) ↦ inl (l, rw h (rw out))
    | inr (plain, l, real, out) ↦ inr (plain, l, real, rw h (rw out))
  ]
