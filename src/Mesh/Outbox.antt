-- ===== src/Mesh/Outbox.antt =====
-- What MeshEngine sends: clipboard, browser handoff, revocation and the join handshake
-- (src/mesh_engine.cpp). A method that throws leaves what it had written.
pub mod Handoff
pub mod Revocation
use rin_windows.Base.{
  ℕ, suc, ◌+◌, Str, lit, str_eq, is_empty, contains, to_lower, ℤ, pos, to_string, Bool, true, false,
  not, ◌||◌, ◌&&◌, Option, none, some, List, [], ◌∷◌, ◌++◌, map, length, take, Result, ok, err,
  if◌then◌else◌,
}
use rin_windows.Base.Act.{Act, pure, lift, gets, modify, resume, ◌>>=◌, ◌>>◌}
use rin_windows.Base.Dict.{lookup}
use rin_windows.Protocol.{
  MeshPacket, PacketType, clipboard_sync, browser_handoff, revocation, join_accept, QrJoinToken,
  PlatformType, android, windows, mac_os, tablet, connected, lan,
}
use rin_windows.Protocol.Json.{JsonLib}
use rin_windows.Protocol.Payloads.{token_to_json}
use rin_windows.Crypto.OpenSsl.{OpenSsl, Bytes}
use rin_windows.Crypto.Hex.{generate_ephemeral_token, generate_session_id}
use rin_windows.Crypto.Keys.{derive_peer_session_key, derive_mesh_encryption_key}
use rin_windows.Crypto.Payload.{encrypt_payload}
use rin_windows.Crypto.Signature.{sign}
use rin_windows.Audit.Entries.{connection_failed, handshake_initiated, handshake_completed}
use rin_windows.Device.{MeshIdentity, TrustedDevice, blank_device}
use rin_windows.Persistence.{save_identity, upsert_device}
use rin_windows.World.{World, audit, log_event}
use rin_windows.Transport.{Contact, send_packet}
use rin_windows.Mesh.Devices.{persist, set_device, trusted_devices, forget_device}

-- The answers of the outside to one operation. The k-th answer used is at k; `identity_io` and
-- `device_io` are SQLite's.
pub record Outside : Type 0 where
  pub now : ℤ
  pub random : ℕ → Option Bytes
  pub nonce : ℕ → ℕ
  pub contact : ℕ → Contact
  pub identity_io : Option Str
  pub device_io : Option Str

unfoldable pub draw : Act World ℕ
draw w = (ok w.draws, record w { draws = suc w.draws })

unfoldable pub next_sequence : Act World ℤ
next_sequence w = (ok (pos w.sequence), record w { sequence = suc w.sequence })

module _ (J : JsonLib) (O : OpenSsl) (out : Outside) where
  unfoldable pub new_session_id : Act World Str
  unfolding draw
  new_session_id = draw >>= λ k. lift (generate_session_id O (out.random k))

  unfoldable pub mesh_key : Act World Bytes
  mesh_key w = (derive_mesh_encryption_key O w.identity.mesh_secret w.identity.mesh_name, w)

  -- encrypt_payload and sign, as every sender calls them.
  unfoldable pub seal : Str → Bytes → Act World (Str × Str)
  unfolding draw
  seal text key = do
    k ← draw
    encrypted ← lift (encrypt_payload O (out.random k) text key)
    n ← draw
    private_key ← gets (λ w. w.identity.local_private_key)
    sig ← lift (sign O (out.nonce n) encrypted private_key)
    pure (encrypted, sig)

  unfoldable pub packet_of : PacketType → Str → ℤ → Option Str → (Str × Str) → World → MeshPacket
  packet_of type session_id sequence target_key (encrypted, sig) w = record {
    version = pos 1;
    session_id = session_id;
    sequence = sequence;
    type = type;
    sender_key = w.identity.local_public_key;
    sender_name = w.identity.local_device_name;
    target_key = target_key;
    payload = encrypted;
    signature = sig;
    rail = lan;
    timestamp_ms = out.now;
  }

  unfoldable pub transmit : Str → ℤ → MeshPacket → Act World (Option ℤ)
  unfolding draw send_packet
  transmit ip port packet = draw >>= λ k. λ w.
      let (latency, v) = send_packet out.now ip port packet J (out.contact k) w in (ok latency, v)

  -- A packet to a device that has an address.
  unfoldable pub send_sealed :
      PacketType → Str → Option Str → (Str × Str) → TrustedDevice → Str → Act World (Option ℤ)
  unfolding next_sequence packet_of transmit
  send_sealed type session_id target_key sealed device ip = do
    sequence ← next_sequence
    packet ← gets (packet_of type session_id sequence target_key sealed)
    transmit ip device.port packet

  unfoldable pub if_reachable : (Str → Act World (Option ℤ)) → Option Str → Act World (Unit {0})
  if_reachable send none = pure tt
  if_reachable send (some ip) = send ip >>= λ _. pure tt

  -- One step of the loops over the devices: `skip` is the `continue` of the loop.
  unfoldable pub to_each :
      (TrustedDevice → Act World (Unit {0})) → List TrustedDevice → Act World (Unit {0})
  to_each step [] = pure tt
  to_each step (device ∷ devices) = step device >>= λ _. to_each step devices

  unfoldable pub clipboard_to : (Str × Str) → TrustedDevice → Act World (Unit {0})
  unfolding if_reachable send_sealed new_session_id
  clipboard_to sealed device =
      if device.is_self
      then pure tt
      else if_reachable
          (λ ip. new_session_id >>= λ session_id.
            send_sealed clipboard_sync session_id (some device.public_key) sealed device ip)
          device.ip_address

  unfoldable pub broadcast_to : Str → List TrustedDevice → Act World (Unit {0})
  unfolding mesh_key seal to_each clipboard_to log_event
  broadcast_to text [] = pure tt
  broadcast_to text (d ∷ devices) = do
    key ← mesh_key
    sealed ← seal text key
    to_each (clipboard_to sealed) (d ∷ devices)
    modify (
        log_event out.now (
          lit "Broadcast clipboard to "
          ++ (to_string (pos (length (d ∷ devices))) ++ lit " device(s)")))

  unfoldable pub broadcast_clipboard : Str → Act World (Unit {0})
  unfolding broadcast_to trusted_devices
  broadcast_clipboard text = gets trusted_devices >>= broadcast_to text

  unfoldable pub handoff_to : Str → (Str × Str) → TrustedDevice → Act World (Unit {0})
  unfolding if_reachable send_sealed
  handoff_to session_id sealed device =
      if_reachable (send_sealed browser_handoff session_id (some device.public_key) sealed device)
        device.ip_address

  unfoldable pub handoff_to_other : Str → (Str × Str) → TrustedDevice → Act World (Unit {0})
  unfolding handoff_to
  handoff_to_other session_id sealed device =
      if device.is_self then pure tt else handoff_to session_id sealed device

  -- The target, when a key is given and known.
  unfoldable pub find_target : Option Str → World → Option TrustedDevice
  find_target none w = none
  find_target (some key) w = lookup key w.devices

  unfoldable pub handoff_key : Str → Option TrustedDevice → Act World Bytes
  unfolding mesh_key
  handoff_key session_id none w = mesh_key w
  handoff_key session_id (some target) w = (
    derive_peer_session_key O w.identity.local_private_key target.public_key (some session_id),
    w,
  )

  unfoldable pub handoff_all : Str → (Str × Str) → Option TrustedDevice → Act World (Unit {0})
  unfolding handoff_to handoff_to_other to_each trusted_devices
  handoff_all session_id sealed none =
      gets trusted_devices >>= to_each (handoff_to_other session_id sealed)
  handoff_all session_id sealed (some target) = handoff_to session_id sealed target

  unfoldable pub handoff : Str → Option TrustedDevice → Act World (Unit {0})
  unfolding new_session_id handoff_key seal handoff_all log_event
  handoff url target = do
    session_id ← new_session_id
    key ← handoff_key session_id target
    sealed ← seal url key
    handoff_all session_id sealed target
    modify (log_event out.now (lit "Sent browser handoff: " ++ url))

  unfoldable pub send_browser_handoff : Str → Option Str → Act World (Unit {0})
  unfolding find_target handoff
  send_browser_handoff url target_device_key = gets (find_target target_device_key) >>= handoff url

  unfoldable pub revocation_to : Str → (Str × Str) → TrustedDevice → Act World (Unit {0})
  unfolding if_reachable send_sealed new_session_id
  revocation_to public_key sealed device =
      if device.is_self || str_eq device.public_key public_key
      then pure tt
      else if_reachable
          (λ ip. new_session_id >>= λ session_id.
            send_sealed revocation session_id none sealed device ip)
          device.ip_address

  unfoldable pub revoke_device : Str → Act World (Unit {0})
  unfolding mesh_key seal to_each revocation_to trusted_devices forget_device log_event
  revoke_device public_key = do
    key ← mesh_key
    sealed ← seal public_key key
    devices ← gets trusted_devices
    to_each (revocation_to public_key sealed) devices
    modify (
        forget_device out.now out.device_io (lit "Failed to persist device revocation: ")
          public_key)
    modify
        (log_event out.now (lit "Signed and broadcast revocation for device " ++ take 8 public_key))

  unfoldable pub build_join_token_json : Act World (Option Str)
  unfolding draw
  build_join_token_json = do
    k ← draw
    token ← lift (generate_ephemeral_token O (out.random k))
    gets (λ w. token_to_json J (record {
      mesh_name = w.identity.mesh_name;
      host_public_key = w.identity.local_public_key;
      host_device_name = w.identity.local_device_name;
      ephemeral_token = token;
      mesh_secret = some w.identity.mesh_secret;
      host_port = w.identity.port;
      host_ip = none;
      timestamp_ms = out.now;
    }))
