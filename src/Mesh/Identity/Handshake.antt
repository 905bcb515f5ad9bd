-- ===== src/Mesh/Identity/Handshake.antt =====
-- MeshEngine::complete_join_handshake (src/mesh_engine.cpp).
use rin_windows.Base.{
  Str, lit, str_eq, is_empty, contains, to_lower, ℤ, pos, Bool, true, false, not, ◌||◌, ◌&&◌,
  Option, none, some, ◌++◌, map, ok, if◌then◌else◌,
}
use rin_windows.Base.Act.{Act, ◌>>=◌}
use rin_windows.Protocol.{
  join_accept, QrJoinToken, PlatformType, android, windows, mac_os, tablet, connected, lan,
}
use rin_windows.Protocol.Json.{JsonLib}
use rin_windows.Crypto.OpenSsl.{OpenSsl}
use rin_windows.Audit.Entries.{connection_failed, handshake_initiated, handshake_completed}
use rin_windows.Device.{MeshIdentity, TrustedDevice, blank_device}
use rin_windows.Persistence.{save_identity, upsert_device}
use rin_windows.World.{World, audit, log_event}
use rin_windows.Mesh.Devices.{persist, set_device}
use rin_windows.Mesh.Outbox.{Outside, mesh_key, seal, new_session_id, send_sealed}

-- contains_ci
unfoldable pub contains_ci : Str → Str → Bool
unfolding contains to_lower
contains_ci haystack needle = contains (map to_lower haystack) (map to_lower needle)

unfoldable pub platform_of : Str → PlatformType
unfolding contains_ci
platform_of name =
    if contains_ci name (lit "pc") || contains_ci name (lit "windows")
    then windows
    else if contains_ci name (lit "mac")
    then mac_os
    else if contains_ci name (lit "tab") || contains_ci name (lit "ipad")
    then tablet
    else android

abbrev pub host_device : QrJoinToken → Str → TrustedDevice
host_device token host_ip = record blank_device {
  public_key = token.host_public_key;
  name = token.host_device_name;
  platform = platform_of token.host_device_name;
  connection_state = connected;
  active_rail = lan;
  ip_address = some host_ip;
  port = token.host_port;
  latency_ms = pos 2;
  is_self = false;
}

-- Whether the token's secret replaces this device's.
unfoldable pub new_secret : Option Str → Str → Option Str
new_secret none own = none
new_secret (some secret) own =
    if not (is_empty secret) && not (str_eq secret own) then some secret else none

module _ (J : JsonLib) (O : OpenSsl) (out : Outside) where
  unfoldable pub save_secret : Option Str → World → World
  unfolding persist
  save_secret none w = w
  save_secret (some secret) w =
      let identity : MeshIdentity = record w.identity { mesh_secret = secret } in
      persist out.now (lit "Failed to persist updated mesh secret: ")
        (save_identity out.identity_io identity) (record w { identity = identity })

  unfoldable pub adopt_secret : QrJoinToken → World → World
  unfolding save_secret new_secret
  adopt_secret token w = save_secret (new_secret token.mesh_secret w.identity.mesh_secret) w

  -- What a join does before it answers the host.
  unfoldable pub enter_mesh : QrJoinToken → Str → World → World
  unfolding adopt_secret persist set_device audit
  enter_mesh token host_ip w = adopt_secret token (
      persist out.now (lit "Failed to persist joined device: ")
        (upsert_device out.device_io (host_device token host_ip))
        (set_device (host_device token host_ip) (
          audit
            (handshake_initiated out.now host_ip token.host_device_name
              (some token.ephemeral_token))
            w)))

  unfoldable pub join_result : QrJoinToken → Str → Option ℤ → World → Bool × World
  unfolding log_event audit
  join_result token host_ip none w = (
    false,
    audit
        (connection_failed out.now (lit "LAN") host_ip token.host_port
          (lit "unreachable or timed out") (some token.host_device_name))
        (log_event out.now
          (lit "Join handshake to " ++ (token.host_device_name ++ lit " failed: unreachable")) w),
  )
  join_result token host_ip (some latency) w = (
    true,
    audit (handshake_completed out.now token.host_device_name token.host_public_key (lit "LAN")) (
        log_event out.now
          (lit "Authenticated "
            ++ (token.host_device_name ++ (lit " into " ++ w.identity.mesh_name)))
          w),
  )

  unfoldable pub answer_host : QrJoinToken → Str → Act World Bool
  unfolding mesh_key seal new_session_id send_sealed join_result
  answer_host token host_ip = do
    key ← mesh_key J O out
    sealed ← seal J O out token.ephemeral_token key
    session_id ← new_session_id J O out
    latency ←
        send_sealed J O out join_accept session_id (some token.host_public_key) sealed
          (host_device token host_ip) host_ip
    λ w. let (joined, v) = join_result token host_ip latency w in (ok joined, v)

  unfoldable pub join_at : QrJoinToken → Option Str → Act World Bool
  unfolding log_event enter_mesh answer_host
  join_at token none w = (
    ok false,
    log_event out.now
        (lit
          "Join handshake failed: token has no host IP (scan a token that includes one, or resolve the host via UDP discovery first)")
        w,
  )
  join_at token (some host_ip) w = answer_host token host_ip (enter_mesh token host_ip w)

  unfoldable pub complete_join_handshake : QrJoinToken → Act World Bool
  unfolding join_at
  complete_join_handshake token = join_at token token.host_ip
