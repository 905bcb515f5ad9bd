-- ===== src/Mesh/Runs.antt =====
-- The runs of the engine of src/mesh_engine.cpp: what the program, the network and the other threads
-- call, in any order.
use rin_windows.Base.{
  ℕ, Str, str_eq, arith, ℤ, Bool, Bool-cases, ◌≡◌, refl, sym, subst, ◌∙◌, Option, none, some, inl,
  inr, Result, ok, err, if◌then◌else◌,
}
use rin_windows.Base.Act.{Act}
use rin_windows.Base.Act.Keeps.{Keeps}
use rin_windows.Base.Dict.{Dict, lookup}
use rin_windows.Protocol.{QrJoinToken}
use rin_windows.Protocol.Json.{JsonLib}
use rin_windows.Crypto.OpenSsl.{OpenSsl, Bytes}
use rin_windows.Device.{DiscoveredPeer}
use rin_windows.World.{World, fresh_world, log_event}
use rin_windows.Mesh.Devices.{on_peer_discovered}
use rin_windows.Mesh.Inbox.{Surroundings}
use rin_windows.Mesh.Service.{incoming, started, start}
use rin_windows.Transport.{start_tcp}
use rin_windows.Mesh.Outbox.{
  Outside, broadcast_clipboard, send_browser_handoff, revoke_device, build_join_token_json,
}
use rin_windows.Mesh.Outbox.Revocation.{Outcome, Forgets, revoke_device-Forgets}
use rin_windows.Mesh.SendFile.{send_file_to_device}
use rin_windows.Mesh.Identity.{Storage, try_load_persisted, create_initial_mesh}
use rin_windows.Mesh.Identity.Handshake.{complete_join_handshake}
use rin_windows.Mesh.Keyed.{AreKeyed}
use rin_windows.Mesh.Keyed.Operations.{on_peer_discovered-AreKeyed, incoming-AreKeyed}
use rin_windows.Mesh.Keyed.Senders.{SameBase, broadcast_clipboard-Keeps}
use rin_windows.Mesh.Keyed.Methods.{
  send_browser_handoff-Keeps, build_join_token_json-Keeps, send_file_to_device-Keeps,
}
use rin_windows.Mesh.Keyed.Starts.{
  try_load_persisted-AreKeyed, create_initial_mesh-AreKeyed, complete_join_handshake-AreKeyed,
}

module _ (J : JsonLib) (O : OpenSsl) (downloads : Str) where
  -- A call of the engine, with whatever the outside answers. What a method throws is the caller's.
  pub data Step (w : World) : World → Type 0 where
    receives :
        (s : Surroundings) (acked : Bool) (line : Str)
        → Step w (incoming J O downloads s acked line w)
    hears :
        (now : ℤ) (io : Option Str) (peer : DiscoveredPeer)
        → Step w (on_peer_discovered now io peer w)
    broadcasts : (out : Outside) (text : Str) → Step w (broadcast_clipboard J O out text w).1
    hands_off :
        (out : Outside) (url : Str) (target : Option Str)
        → Step w (send_browser_handoff J O out url target w).1
    revokes : (out : Outside) (key : Str) → Step w (revoke_device J O out key w).1
    invites : (out : Outside) → Step w (build_join_token_json J O out w).1
    joins :
        (out : Outside) (token : QrJoinToken) → Step w (complete_join_handshake J O out token w).1
    sends :
        (out : Outside) (path key : Str)
        → Step w (send_file_to_device J O out path (lookup key w.devices) w).1
    loads : (now : ℤ) (s : Storage) → Step w (try_load_persisted now s w).1
    starts : (bind : ℕ → Bool) (udp : Option Str) (now : ℤ) → Step w (start bind udp now w).1
    creates :
        (out : Outside) (s : Storage) (mesh_name device_name : Str)
        → Step w (create_initial_mesh J O out s mesh_name device_name w).1

  pub data Reaches (w : World) : World → Type 0 where
    here : Reaches w w
    next : {u v : World} → Reaches w u → Step u v → Reaches w v

  keeping :
      {A : Type 0} (m : Act World A) (w : World)
      → Keeps (SameBase w) m
      → AreKeyed w.devices
      → AreKeyed (m w).1.devices
  keeping m w kept keyed = subst AreKeyed (sym (kept.after w (refl, refl, refl)).0) keyed

  forgotten-AreKeyed :
      (out : Outside) (key : Str) (v : World) (r : Result (Unit {0}) × World)
      → Outcome (Forgets J O out key v) v r
      → AreKeyed v.devices
      → AreKeyed r.1.devices
  forgotten-AreKeyed out key v (ok done, w) (gone, _) keyed k d found =
      let entry : (if str_eq key k then none else lookup k v.devices) ≡ some d =
        sym (gone k) ∙ found in
      elim (Bool-cases (str_eq key k)) [
        | inl same ↦ absurd (ground (arith, same, entry))
        | inr other ↦ keyed k d (ground (arith, other, entry))
      ]
  forgotten-AreKeyed out key v (err e, w) (same, _, _) keyed k d found =
      subst AreKeyed (sym same) keyed k d found

  started-devices :
      (now : ℤ) (port : Result ℕ) (udp : Option Str) (w : World)
      → (started now port udp w).1.devices ≡ w.devices
  unfolding started log_event
  started-devices now (err e) udp w = refl
  started-devices now (ok port) (some text) w = refl
  started-devices now (ok port) none w = refl

  Step-AreKeyed : {v w : World} → Step v w → AreKeyed v.devices → AreKeyed w.devices
  unfolding start
  Step-AreKeyed {v} (receives s acked line) keyed =
      incoming-AreKeyed J O downloads s acked line v keyed
  Step-AreKeyed {v} (hears now io peer) keyed = on_peer_discovered-AreKeyed now io peer v keyed
  Step-AreKeyed {v} (broadcasts out text) keyed =
      keeping (broadcast_clipboard J O out text) v (broadcast_clipboard-Keeps v J O out text) keyed
  Step-AreKeyed {v} (hands_off out url target) keyed =
      keeping (send_browser_handoff J O out url target) v
        (send_browser_handoff-Keeps v J O out url target) keyed
  Step-AreKeyed {v} (revokes out key) keyed =
      forgotten-AreKeyed out key v _ (revoke_device-Forgets J O out key v) keyed
  Step-AreKeyed {v} (invites out) keyed =
      keeping (build_join_token_json J O out) v (build_join_token_json-Keeps v J O out) keyed
  Step-AreKeyed {v} (joins out token) keyed = complete_join_handshake-AreKeyed J O out token v keyed
  Step-AreKeyed {v} (sends out path key) keyed =
      keeping (send_file_to_device J O out path (lookup key v.devices)) v
        (send_file_to_device-Keeps v J O out path (lookup key v.devices)) keyed
  Step-AreKeyed {v} (loads now s) keyed = try_load_persisted-AreKeyed now s v keyed
  Step-AreKeyed {v} (starts bind udp now) keyed =
      subst AreKeyed (sym (started-devices now (start_tcp bind) udp v)) keyed
  Step-AreKeyed {v} (creates out s mesh_name device_name) keyed =
      (create_initial_mesh-AreKeyed J O out s mesh_name device_name).after v keyed

  -- In every run of the engine from its start, whatever is called in whatever order and whatever the
  -- outside answers, each device of the table stands under its own key.
  pub Reaches-AreKeyed :
      (disk : Dict Bytes) {w : World} → Reaches (fresh_world disk) w → AreKeyed w.devices
  unfolding lookup
  Reaches-AreKeyed disk here = λ k d e. cc
  Reaches-AreKeyed disk (next r step) = Step-AreKeyed step (Reaches-AreKeyed disk r)
