-- ===== src/Persistence/Rows.antt =====
-- The rows of the two tables, as src/persistence.cpp binds and reads their columns.
use rin_windows.Base.{
  Str, lit, str_eq, ℤ, pos, eqb_ℤ, not, Option, none, some, [], ◌∷◌, ◌==◌, if◌then◌else◌,
}
use rin_windows.Protocol.{
  ConnectionState, connected, active, reconnecting, idle, offline, lost, discovered, authenticating,
  lan, PlatformType, android, windows, linux, mac_os, tablet,
}
use rin_windows.Device.{MeshIdentity, TrustedDevice}

unfoldable pub platform_to_string : PlatformType → Str
platform_to_string android = lit "ANDROID"
platform_to_string windows = lit "WINDOWS"
platform_to_string linux = lit "LINUX"
platform_to_string mac_os = lit "MACOS"
platform_to_string tablet = lit "TABLET"

unfoldable pub platform_from_string : Str → PlatformType
platform_from_string s =
    if str_eq s (lit "ANDROID")
    then android
    else if str_eq s (lit "LINUX")
    then linux
    else if str_eq s (lit "MACOS")
    then mac_os
    else if str_eq s (lit "TABLET")
    then tablet
    else windows

unfoldable pub state_to_string : ConnectionState → Str
state_to_string connected = lit "CONNECTED"
state_to_string active = lit "ACTIVE"
state_to_string reconnecting = lit "RECONNECTING"
state_to_string idle = lit "IDLE"
state_to_string offline = lit "OFFLINE"
state_to_string lost = lit "LOST"
state_to_string discovered = lit "DISCOVERED"
state_to_string authenticating = lit "AUTHENTICATING"

unfoldable pub state_from_string : Str → ConnectionState
state_from_string s = offline

-- What sqlite3_bind_text(stmt, i, value.c_str(), -1, ...) binds: the bytes before the first NUL.
unfoldable pub c_str : Str → Str
c_str [] = []
c_str (c ∷ s) = let rest = c_str s in if c == 0 then [] else c ∷ rest

pub record IdentityRow : Type 0 where
  pub mesh_name : Str
  pub local_device_name : Str
  pub local_public_key : Str
  pub local_private_key : Str
  pub local_fingerprint : Str
  pub mesh_secret : Str
  pub port : ℤ

pub record DeviceRow : Type 0 where
  pub public_key : Str
  pub name : Str
  pub platform : Str
  pub ip_address : Option Str
  pub port : ℤ
  pub is_self : ℤ

unfoldable pub identity_row : MeshIdentity → IdentityRow
unfolding c_str
identity_row i = record {
  mesh_name = c_str i.mesh_name;
  local_device_name = c_str i.local_device_name;
  local_public_key = c_str i.local_public_key;
  local_private_key = c_str i.local_private_key;
  local_fingerprint = c_str i.local_fingerprint;
  mesh_secret = c_str i.mesh_secret;
  port = i.port;
}

unfoldable pub identity_of_row : IdentityRow → MeshIdentity
identity_of_row r = record {
  mesh_name = r.mesh_name;
  local_device_name = r.local_device_name;
  local_public_key = r.local_public_key;
  local_private_key = r.local_private_key;
  local_fingerprint = r.local_fingerprint;
  mesh_secret = r.mesh_secret;
  port = r.port;
}

unfoldable pub bind_ip : Option Str → Option Str
unfolding c_str
bind_ip none = none
bind_ip (some ip) = some (c_str ip)

unfoldable pub device_row : TrustedDevice → DeviceRow
unfolding bind_ip platform_to_string
device_row d = record {
  public_key = c_str d.public_key;
  name = c_str d.name;
  platform = c_str (platform_to_string d.platform);
  ip_address = bind_ip d.ip_address;
  port = d.port;
  is_self = if d.is_self then pos 1 else pos 0;
}

unfoldable pub device_of_row : DeviceRow → TrustedDevice
unfolding platform_from_string state_from_string
device_of_row r = record {
  public_key = r.public_key;
  name = r.name;
  platform = platform_from_string r.platform;
  connection_state = state_from_string [];
  active_rail = lan;
  ip_address = r.ip_address;
  port = r.port;
  latency_ms = pos 0;
  is_self = not (eqb_ℤ r.is_self (pos 0));
}
