-- ===== src/Mesh/Keyed/Operations.antt =====
-- The table stays keyed over what arrives (src/mesh_engine.cpp).
use rin_windows.Base.{
  Str, lit, str_eq, ℤ, Bool, true, false, Bool-cases, ◌≡◌, inl, inr, refl, sym, ap, subst, Option,
  none, some, Result, ok, err, [], arith, ◌∷◌, ◌++◌,
}
use rin_windows.Base.Dict.{lookup, erase}
use rin_windows.Protocol.{
  connected, MeshPacket, PacketType, hello, join_request, join_accept, clipboard_sync,
  browser_handoff, file_start, file_chunk, file_complete, revocation, heartbeat, ack,
}
use rin_windows.Protocol.Json.{JsonLib}
use rin_windows.Crypto.OpenSsl.{OpenSsl, Bytes}
use rin_windows.Device.{TrustedDevice, DiscoveredPeer}
use rin_windows.Persistence.{upsert_device, remove_device}
use rin_windows.World.{World, ReceivedFileRecord, audit, log_event}
use rin_windows.Mesh.Devices.{
  set_device, device_of_peer, refresh_device, add_peer, discovered_peer, on_peer_discovered,
  forget_device, heartbeat_from,
}
use rin_windows.Mesh.Devices.Table.{persist-devices}
use rin_windows.Mesh.Inbox.{
  Surroundings, report_file, set_clipboard, write_clipboard, open_url, peer_logged,
  broadcast_logged, broadcast_plain, decrypt_sealed, is_plaintext, decrypt_packet_payload,
}
use rin_windows.Mesh.Inbox.Dispatch.{dispatch, deliver, on_packet_received}
use rin_windows.Mesh.Service.{incoming}
use rin_windows.Mesh.Service.Admission.{incoming_lem}
use rin_windows.Mesh.Keyed.{AreKeyed, insert-AreKeyed, erase-AreKeyed}
use rin_windows.Mesh.Keyed.Handlers.{
  handle_file_start-devices, handle_file_chunk-devices, handle_file_complete-devices,
}

write_clipboard-devices :
    (s : Surroundings) (plain : Str) (w : World) → (write_clipboard s plain w).devices ≡ w.devices
unfolding write_clipboard set_clipboard log_event
write_clipboard-devices s plain w = ground arith

open_url-devices :
    (s : Surroundings) (plain : Str) (w : World) → (open_url s plain w).devices ≡ w.devices
unfolding open_url log_event
open_url-devices s plain w = ground arith

report_file-devices :
    (now : ℤ) (rec : ReceivedFileRecord) (w : World) → (report_file now rec w).devices ≡ w.devices
unfolding report_file log_event
report_file-devices now rec w = ground arith

heartbeat_from-AreKeyed :
    (key : Str) (o : Option TrustedDevice) (w : World)
    → lookup key w.devices ≡ o
    → AreKeyed w.devices
    → AreKeyed (heartbeat_from key o w).devices
unfolding heartbeat_from
heartbeat_from-AreKeyed key none w h keyed = keyed
heartbeat_from-AreKeyed key (some d) w h keyed =
    insert-AreKeyed key (record d { connection_state = connected }) w.devices (keyed key d h) keyed

forget_device-AreKeyed :
    (now : ℤ) (io : Option Str) (c key : Str) (w : World)
    → AreKeyed w.devices
    → AreKeyed (forget_device now io c key w).devices
unfolding forget_device
forget_device-AreKeyed now io c key w keyed =
    subst AreKeyed
      (sym
        (persist-devices now c (remove_device io key) (record w { devices = erase key w.devices })))
      (erase-AreKeyed key w.devices keyed)

discovered_peer-AreKeyed :
    (now : ℤ) (io : Option Str) (peer : DiscoveredPeer) (o : Option TrustedDevice) (w : World)
    → lookup peer.public_key w.devices ≡ o
    → AreKeyed w.devices
    → AreKeyed (discovered_peer now io peer o w).devices
unfolding discovered_peer refresh_device add_peer set_device audit log_event
discovered_peer-AreKeyed now io peer none w h keyed =
    subst AreKeyed
      (sym (
        persist-devices now (lit "Failed to persist discovered device: ")
          (upsert_device io (device_of_peer peer)) (set_device (device_of_peer peer) w)))
      (insert-AreKeyed peer.public_key (device_of_peer peer) w.devices refl keyed)
discovered_peer-AreKeyed now io peer (some d) w h keyed =
    insert-AreKeyed peer.public_key
      (record d { ip_address = some peer.ip; port = peer.port; connection_state = connected })
      w.devices (keyed peer.public_key d h) keyed

-- Discovery keeps every device of the table under its own key.
pub on_peer_discovered-AreKeyed :
    (now : ℤ) (io : Option Str) (peer : DiscoveredPeer) (w : World)
    → AreKeyed w.devices
    → AreKeyed (on_peer_discovered now io peer w).devices
unfolding on_peer_discovered
on_peer_discovered-AreKeyed now io peer w keyed =
    elim (Bool-cases (str_eq peer.mesh_name w.identity.mesh_name)) [
      | inl same ↦ rw same (discovered_peer-AreKeyed now io peer _ w refl keyed)
      | inr other ↦ rw other keyed
    ]

module _ (J : JsonLib) (O : OpenSsl) (downloads : Str) (s : Surroundings) where
  dispatch-AreKeyed :
      (type : PacketType) (packet : MeshPacket) (plain : Str) (w : World)
      → AreKeyed w.devices
      → AreKeyed (dispatch J O downloads s type packet plain w).1.devices
  unfolding dispatch log_event
  dispatch-AreKeyed clipboard_sync packet plain w keyed =
      subst AreKeyed (sym (write_clipboard-devices s plain (log_event s.now _ w))) keyed
  dispatch-AreKeyed browser_handoff packet plain w keyed =
      subst AreKeyed (sym (open_url-devices s plain (log_event s.now _ w))) keyed
  dispatch-AreKeyed file_start packet plain w keyed =
      subst AreKeyed
        (sym (
          handle_file_start-devices J downloads s.files s.now plain packet.sender_key
            packet.sender_name w))
        keyed
  dispatch-AreKeyed file_chunk packet plain w keyed =
      subst AreKeyed (sym (handle_file_chunk-devices O J plain w)) keyed
  dispatch-AreKeyed file_complete packet plain w keyed =
      subst AreKeyed
        (sym (
          handle_file_complete-devices O downloads (report_file s.now) (report_file-devices s.now)
            s.files s.now packet.sender_name J plain w))
        keyed
  dispatch-AreKeyed revocation packet plain w keyed =
      forget_device-AreKeyed s.now s.sqlite (lit "Failed to persist remote revocation: ") plain w
        keyed
  dispatch-AreKeyed heartbeat packet plain w keyed =
      heartbeat_from-AreKeyed packet.sender_key _ w refl keyed
  dispatch-AreKeyed join_request packet plain w keyed = keyed
  dispatch-AreKeyed join_accept packet plain w keyed = keyed
  dispatch-AreKeyed hello packet plain w keyed = keyed
  dispatch-AreKeyed ack packet plain w keyed = keyed

  broadcast_logged-devices :
      (packet : MeshPacket) (r : Result Str) (w : World)
      → (broadcast_logged O s.now packet r w).1.devices ≡ w.devices
  unfolding broadcast_logged audit
  broadcast_logged-devices packet (ok plain) w = refl
  broadcast_logged-devices packet (err e) w = refl

  broadcast_plain-devices :
      (packet : MeshPacket) (r : Result Bytes) (w : World)
      → (broadcast_plain O s.now packet r w).1.devices ≡ w.devices
  unfolding broadcast_plain
  broadcast_plain-devices packet (ok key) w = broadcast_logged-devices packet _ w
  broadcast_plain-devices packet (err e) w = refl

  peer_logged-devices :
      (packet : MeshPacket) (r : Result Str) (w : World)
      → (peer_logged O s.now packet r w).1.devices ≡ w.devices
  unfolding peer_logged audit
  peer_logged-devices packet (ok plain) w = refl
  peer_logged-devices packet (err e) w = refl

  decrypt_sealed-devices :
      (packet : MeshPacket) (t : Bool) (w : World)
      → (decrypt_sealed O s.now packet t w).1.devices ≡ w.devices
  unfolding decrypt_sealed
  decrypt_sealed-devices packet true w = peer_logged-devices packet _ w
  decrypt_sealed-devices packet false w = broadcast_plain-devices packet _ w

  decrypt-devices :
      (packet : MeshPacket) (w : World)
      → (decrypt_packet_payload O s.now packet w).1.devices ≡ w.devices
  unfolding decrypt_packet_payload
  decrypt-devices packet w = elim (Bool-cases (is_plaintext O packet.type)) [
    | inl open_ ↦ rw open_
    | inr sealed ↦ rw sealed (decrypt_sealed-devices packet _ w)
  ]

  deliver-AreKeyed :
      (packet : MeshPacket) (out : Result Str × World)
      → AreKeyed out.1.devices
      → AreKeyed (deliver J O downloads s packet out).1.devices
  unfolding deliver
  deliver-AreKeyed packet (ok plain, w) keyed = dispatch-AreKeyed packet.type packet plain w keyed
  deliver-AreKeyed packet (err e, w) keyed = keyed

  on_packet_received-AreKeyed :
      (packet : MeshPacket) (w : World)
      → AreKeyed w.devices
      → AreKeyed (on_packet_received J O downloads s packet w).1.devices
  unfolding on_packet_received
  on_packet_received-AreKeyed packet w keyed =
      deliver-AreKeyed packet _ (subst AreKeyed (sym (decrypt-devices packet w)) keyed)

  -- Whatever line arrives from the network, every device of the table stays under its own key.
  pub incoming-AreKeyed :
      (acked : Bool) (line : Str) (w : World)
      → AreKeyed w.devices
      → AreKeyed (incoming J O downloads s acked line w).devices
  incoming-AreKeyed acked line w keyed = elim (incoming_lem J O downloads s acked line w) [
    | inl (l, out) ↦ subst AreKeyed (sym (ap (λ (v : World). v.devices) out)) keyed
    | inr (packet, l, _, _, out) ↦ subst AreKeyed (sym (ap (λ (v : World). v.devices) out)) (
        on_packet_received-AreKeyed packet
          (record w { logger = l; acks = w.acks ++ packet.sequence ∷ [] }) keyed)
  ]
