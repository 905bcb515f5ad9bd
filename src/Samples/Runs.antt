-- ===== src/Samples/Runs.antt =====
-- The runs of the engine and of the console (src/mesh_engine.cpp, src/main.cpp), at concrete values.
use rin_windows.Base.{
  map, ◌++◌, if◌then◌else◌, Str, lit, str_eq, ◌≡◌, ◌≢◌, refl, ℤ, pos, true, Option, none, some, [],
  ◌∷◌,
}
use rin_windows.Protocol.{QrJoinToken}
use rin_windows.Device.{DiscoveredPeer}
use rin_windows.World.{World, fresh_world}
use rin_windows.Mesh.Devices.{on_peer_discovered}
use rin_windows.Mesh.Outbox.{revoke_device}
use rin_windows.Mesh.Outbox.Revocation.{Outcome, Forgets, revoke_device-Forgets}
use rin_windows.Mesh.Identity.Handshake.{complete_join_handshake}
use rin_windows.Mesh.Identity.Joining.{identity_after, complete_join_handshake-identity}
use rin_windows.Mesh.Identity.Restart.{next_start}
use rin_windows.Mesh.Keyed.{AreKeyed}
use rin_windows.Mesh.Runs.{here, next, hears, revokes, Reaches-AreKeyed}
use rin_windows.Base.Act.{◌>>◌}
use rin_windows.Console.Parsing.{typed, IsRequest}
use rin_windows.Console.Sessions.{unprinted, all_calls, console_main-Calls}
use rin_windows.Console.{devices, launch, parse_line, sendfile, clipboard, usage, console_main}
use rin_windows.Samples.JsonTree.{json}
use rin_windows.Samples.ToySsl.{ssl}
use rin_windows.Samples.Meshes.{net, tablet_peer, empty_db}
use rin_windows.Samples.Messages.{join}

-- A tablet is heard, and then revoked.
abbrev after_revocation : World
after_revocation =
    (revoke_device json ssl net (lit "K7")
      (on_peer_discovered (pos 9) none tablet_peer (fresh_world []))).1

Reaches-AreKeyed_example : AreKeyed after_revocation.devices
Reaches-AreKeyed_example =
    Reaches-AreKeyed json ssl (lit "C:/dl") []
      (next (next here (hears (pos 9) none tablet_peer)) (revokes net (lit "K7")))

revoke_device-Forgets_example :
    Outcome
      (Forgets json ssl net (lit "K7") (fresh_world []))
      (fresh_world [])
      (revoke_device json ssl net (lit "K7") (fresh_world []))
revoke_device-Forgets_example = revoke_device-Forgets json ssl net (lit "K7") (fresh_world [])

abbrev invitation : QrJoinToken
invitation = record join { host_ip = some (lit "10.0.0.2") }

complete_join_handshake-identity_example :
    ((complete_join_handshake json ssl net invitation (fresh_world [])).1.identity
      ≡ identity_after invitation invitation.host_ip (fresh_world []).identity)
    × (invitation.mesh_name ≢ (fresh_world []).identity.mesh_name
        → (now : ℤ) (io : Option Str) (peer : DiscoveredPeer)
        → peer.mesh_name ≡ invitation.mesh_name
        → on_peer_discovered now io peer
            (complete_join_handshake json ssl net invitation (fresh_world [])).1
          ≡ (complete_join_handshake json ssl net invitation (fresh_world [])).1)
complete_join_handshake-identity_example =
    complete_join_handshake-identity json ssl net invitation (fresh_world [])

parse_line_test :
    (parse_line (lit "  sendfile K1 C:/a b.txt") ≡ sendfile (lit "K1") (lit "C:/a b.txt"))
    × (parse_line (lit "sendfile K1") ≡ usage)
    × (parse_line (lit "clipboard  two") ≡ clipboard (lit " two"))
unfolding parse_line lit str_eq
parse_line_test = (refl, refl, refl)

typed_file : IsRequest (sendfile (lit "K7") (lit "C:/a b.txt"))
unfolding lit
typed_file = (refl, (refl, (refl, tt)))

console_main-Calls_example :
    unprinted (
      console_main json ssl
        (next_start (lit "f") none empty_db)
        net
        (λ p. true)
        none
        []
        []
        (λ k. net)
        (map typed
            (clipboard (lit "two words") ∷ sendfile (lit "K7") (lit "C:/a b.txt") ∷ devices ∷ [])
          ++ (if true then lit "quit" else lit "exit") ∷ lit "token" ∷ [])
        (fresh_world []))
    ≡ (launch json ssl (next_start (lit "f") none empty_db) net (λ p. true) none [] []
          >> all_calls json ssl
              (λ k. net)
              0
              (clipboard (lit "two words") ∷ sendfile (lit "K7") (lit "C:/a b.txt") ∷ devices ∷ []))
        (fresh_world [])
console_main-Calls_example =
    console_main-Calls json ssl (next_start (lit "f") none empty_db) net (λ p. true) none [] []
      (λ k. net)
      (clipboard (lit "two words") ∷ sendfile (lit "K7") (lit "C:/a b.txt") ∷ devices ∷ []) true
      (lit "token" ∷ []) (fresh_world []) (tt, (typed_file, (tt, tt)))
