-- ===== src/Shell/Labels.antt =====
-- The texts of the device list of src/win32_shell.cpp. A wide text is a list of UTF-16 units.
use rin_windows.Base.{Str, lit, is_empty, to_string, none, some, [], ◌∷◌, ◌++◌, if◌then◌else◌}
use rin_windows.Protocol.{
  PlatformType, android, windows, linux, mac_os, tablet, ConnectionState, connected, active,
  reconnecting, idle, offline, lost, discovered, authenticating,
}
use rin_windows.Device.{TrustedDevice}

-- `wide` is MultiByteToWideChar on a text that is not empty.
unfoldable pub to_wstring : (Str → Str) → Str → Str
to_wstring wide s = if is_empty s then [] else wide s

unfoldable pub platform_label : PlatformType → Str
platform_label android = lit "Android"
platform_label windows = lit "Windows"
platform_label linux = lit "Linux"
platform_label mac_os = lit "macOS"
platform_label tablet = lit "Tablet"

-- 8230 is the ellipsis.
unfoldable pub state_label : ConnectionState → Str
state_label connected = lit "Connected"
state_label active = lit "This device"
state_label reconnecting = lit "Reconnecting" ++ 8230 ∷ []
state_label idle = lit "Idle"
state_label offline = lit "Offline"
state_label lost = lit "Lost"
state_label discovered = lit "Discovered"
state_label authenticating = lit "Authenticating" ++ 8230 ∷ []

pub record Row : Type 0 where
  pub device : Str
  pub platform : Str
  pub status : Str
  pub address : Str

-- 8212 is the dash for a device without an address.
unfoldable pub row_of : (Str → Str) → TrustedDevice → Row
unfolding to_wstring platform_label state_label
row_of wide d = record {
  device = to_wstring wide d.name;
  platform = platform_label d.platform;
  status = state_label d.connection_state;
  address = elim d.ip_address [
    | none ↦ 8212 ∷ []
    | some ip ↦ to_wstring wide (ip ++ (lit ":" ++ to_string d.port))
  ];
}
