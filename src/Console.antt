-- ===== src/Console.antt =====
-- src/main.cpp: the lines that the console reads, and what it calls for each.
pub mod Parsing
pub mod Sessions
use rin_windows.Base.{
  ℕ, zero, suc, ◌+◌, leb, ◌==◌, Str, lit, str_eq, is_empty, ℤ, pos, to_string, Bool, true, false,
  ◌||◌, ◌&&◌, Option, none, some, List, [], ◌∷◌, ◌++◌, map, Result, ok, err, or_throw,
  json_exception, if◌then◌else◌,
}
use rin_windows.Base.Act.{Act, pure, lift, gets, modify, resume, ◌>>=◌, ◌>>◌}
use rin_windows.Base.Dict.{lookup}
use rin_windows.Protocol.{
  QrJoinToken, PlatformType, android, windows, linux, mac_os, tablet, ConnectionState, connected,
  active, reconnecting, idle, offline, lost, discovered, authenticating,
}
use rin_windows.Protocol.Json.{JsonLib}
use rin_windows.Protocol.Payloads.{token_from_json}
use rin_windows.Crypto.OpenSsl.{OpenSsl}
use rin_windows.Device.{TrustedDevice}
use rin_windows.World.{World, MeshEvent}
use rin_windows.Mesh.Devices.{trusted_devices}
use rin_windows.Mesh.Service.{start, recent_events}
use rin_windows.Mesh.Outbox.{Outside, broadcast_clipboard, build_join_token_json}
use rin_windows.Mesh.SendFile.{send_file_to_device}
use rin_windows.Mesh.Identity.{Storage, try_load_persisted, create_initial_mesh}
use rin_windows.Mesh.Identity.Handshake.{complete_join_handshake}

unfoldable pub platform_name : PlatformType → Str
platform_name android = lit "Android"
platform_name windows = lit "Windows"
platform_name linux = lit "Linux"
platform_name mac_os = lit "macOS"
platform_name tablet = lit "Tablet"

unfoldable pub state_name : ConnectionState → Str
state_name connected = lit "CONNECTED"
state_name active = lit "ACTIVE"
state_name reconnecting = lit "RECONNECTING"
state_name idle = lit "IDLE"
state_name offline = lit "OFFLINE"
state_name lost = lit "LOST"
state_name discovered = lit "DISCOVERED"
state_name authenticating = lit "AUTHENTICATING"

-- isspace, in the "C" locale
abbrev pub is_space : ℕ → Bool
is_space c = c == 32 || (leb 9 c && leb c 13)

unfoldable pub skip_spaces : Str → Str
skip_spaces [] = []
skip_spaces (c ∷ s) = if is_space c then skip_spaces s else c ∷ s

-- The characters up to the next space, and the rest.
unfoldable pub split_word : Str → Str × Str
split_word [] = ([], [])
split_word (c ∷ s) =
    let (word, rest) = split_word s in if is_space c then ([], c ∷ s) else (c ∷ word, rest)

-- iss >> word
unfoldable pub next_word : Str → Str × Str
unfolding skip_spaces split_word
next_word s = split_word (skip_spaces s)

-- if (!rest.empty() && rest[0] == ' ') rest.erase(0, 1)
unfoldable pub strip_space : Str → Str
strip_space [] = []
strip_space (c ∷ s) = if c == 32 then s else c ∷ s

pub data Command : Type 0 where
  quit token devices events usage help unknown : Command
  join : Str → Command
  clipboard : Str → Command
  sendfile : Str → Str → Command

unfoldable pub sendfile_of : Str × Str → Command
unfolding strip_space
sendfile_of (key, rest) =
    if is_empty key || is_empty (strip_space rest) then usage else sendfile key (strip_space rest)

-- The chain of tests on the first word.
unfoldable pub command_of : Str × Str → Command
unfolding strip_space sendfile_of next_word
command_of (cmd, rest) =
    if str_eq cmd (lit "quit") || str_eq cmd (lit "exit")
    then quit
    else if str_eq cmd (lit "token")
    then token
    else if str_eq cmd (lit "join")
    then join (strip_space rest)
    else if str_eq cmd (lit "devices")
    then devices
    else if str_eq cmd (lit "events")
    then events
    else if str_eq cmd (lit "clipboard")
    then clipboard (strip_space rest)
    else if str_eq cmd (lit "sendfile")
    then sendfile_of (next_word rest)
    else if str_eq cmd (lit "help")
    then help
    else unknown

unfoldable pub parse_line : Str → Command
unfolding command_of next_word
parse_line line = command_of (next_word line)

abbrev pub device_line : TrustedDevice → Str
device_line d =
    lit "  "
    ++ (d.name
        ++ (lit "  ["
            ++ (platform_name d.platform
                ++ (lit "]  "
                    ++ (state_name d.connection_state
                        ++ (lit "  "
                            ++ (elim d.ip_address [ none ↦ lit "-" | some ip ↦ ip ]
                                ++ (lit ":"
                                    ++ (to_string d.port
                                        ++ (if d.is_self then lit "  (self)" else []))))))))))

unfoldable pub device_lines : List TrustedDevice → List Str
unfolding platform_name state_name
device_lines [] = lit "(no devices)" ∷ []
device_lines (d ∷ ds) = map device_line (d ∷ ds)

module _ (J : JsonLib) (O : OpenSsl) (out : Outside) where
  -- A token without an address is not used.
  unfoldable pub join_with : Option QrJoinToken → Act World (List Str)
  join_with none = pure (lit "Could not parse token JSON." ∷ [])
  join_with (some t) = elim t.host_ip [
    | none ↦ pure (
        lit "Warning: token has no hostIp. This build requires a hostIp until"
        ∷ lit "the QR camera/scan UI and address-resolution-via-beacon path exist."
        ∷ lit "Add \"hostIp\":\"<phone's LAN IP>\" to the token JSON and retry."
        ∷ [])
    | some ip ↦ complete_join_handshake J O out t >>= λ joined.
        pure ((if joined then lit "Join handshake sent." else lit "Join handshake failed.") ∷ [])
  ]

  -- What a command calls, and the lines that it prints. The text of the help is not modelled.
  unfoldable pub perform : Command → Act World (List Str)
  unfolding join_with device_lines
  perform quit = pure []
  perform token = do
    json ← build_join_token_json J O out
    line ← lift (or_throw json json_exception)
    pure (line ∷ [])
  perform (join rest) = join_with (token_from_json J out.now rest)
  perform devices = gets (λ w. device_lines (trusted_devices w))
  perform events = gets (λ w. map (λ (e : MeshEvent). lit "  " ++ e.message) (recent_events 20 w))
  perform (clipboard text) = broadcast_clipboard J O out text >>= λ done. pure []
  perform usage = pure (lit "Usage: sendfile <device_key_prefix> <file_path>" ∷ [])
  perform (sendfile key path) = do
    target ← gets (λ w. lookup key w.devices)
    send_file_to_device J O out path target
    pure []
  perform help = pure []
  perform unknown = pure (lit "Unknown command. Type 'help' for a list." ∷ [])

-- The loop of main, over the lines that are typed: what is printed, until the end of the input, a
-- quit, or an exception, which ends the program. `outs` are the answers to each line.
module _ (J : JsonLib) (O : OpenSsl) where
  abbrev pub is_quit : Command → Bool
  is_quit quit = true
  is_quit other = false

  abbrev pub printed : List Str → Result (List Str) × World → Result (List Str) × World
  printed lines (ok more, w) = (ok (lines ++ more), w)
  printed lines (err e, w) = (err e, w)

  unfoldable pub session : (ℕ → Outside) → ℕ → List Str → Act World (List Str)
  unfolding parse_line perform
  session outs k [] w = (ok [], w)
  session outs k ([] ∷ lines) w = session outs k lines w
  session outs k ((c ∷ line) ∷ lines) w =
      let rest =
        λ (shown : List Str). λ (v : World). printed shown (session outs (suc k) lines v) in
      if is_quit (parse_line (c ∷ line))
      then (ok [], w)
      else resume (perform J O (outs k) (parse_line (c ∷ line)) w) rest

  -- A mesh is made if none was loaded.
  unfoldable pub name_mesh : Storage → Outside → Str → Str → Bool → Act World (Unit {0})
  name_mesh s out mesh_name device_name true = pure tt
  name_mesh s out mesh_name device_name false =
      create_initial_mesh J O out s mesh_name
        (if is_empty device_name then lit "Windows PC" else device_name)

  -- main up to the loop. What is thrown here ends the program.
  unfoldable pub launch :
      Storage → Outside → (ℕ → Bool) → Option Str → Str → Str → Act World (Unit {0})
  unfolding name_mesh
  launch s out bind udp mesh_name device_name = do
    loaded ← try_load_persisted out.now s
    done ← name_mesh s out mesh_name device_name loaded
    start bind udp out.now

  -- The whole program, with what is typed for the names and then line by line.
  unfoldable pub console_main :
      Storage
      → Outside
      → (ℕ → Bool)
      → Option Str
      → Str
      → Str
      → (ℕ → Outside)
      → List Str
      → Act World (List Str)
  unfolding launch session
  console_main s out bind udp mesh_name device_name outs lines =
      launch s out bind udp mesh_name device_name >>= λ ready. session outs 0 lines
