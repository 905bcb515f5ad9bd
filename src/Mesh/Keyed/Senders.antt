-- ===== src/Mesh/Keyed/Senders.antt =====
-- Sending leaves the table of devices, the identity and the store alone (src/mesh_engine.cpp).
use rin_windows.Base.{
  suc, Str, lit, is_empty, str_eq, ℤ, Bool, true, false, ◌||◌, ◌≡◌, refl, ◌∙◌, Option, none, some,
  List, [], ◌∷◌, if◌then◌else◌,
}
use rin_windows.Base.Act.{Act, modify}
use rin_windows.Base.Act.Keeps.{Keeps, keeps_rules, bind-Keeps, pure-Keeps}
use rin_windows.Protocol.{MeshPacket, PacketType}
use rin_windows.Protocol.Json.{JsonLib}
use rin_windows.Protocol.Wire.{packet_to_wire_json}
use rin_windows.Crypto.OpenSsl.{OpenSsl, Bytes}
use rin_windows.Device.{TrustedDevice}
use rin_windows.Transport.{
  Contact, unreachable, broken, acknowledged, exchange, failed, write_packet, send_packet,
}
use rin_windows.World.{World, audit, log_event}
use rin_windows.Mesh.Outbox.{
  Outside, draw, next_sequence, new_session_id, mesh_key, seal, transmit, send_sealed, if_reachable,
  to_each, clipboard_to, broadcast_to, broadcast_clipboard,
}

-- What no sender changes.
abbrev pub SameBase : World → World → Type 0
SameBase v w = (w.devices ≡ v.devices) × (w.identity ≡ v.identity) × (w.store ≡ v.store)

pub SameBase-trans : (u v w : World) → SameBase u v → SameBase v w → SameBase u w
SameBase-trans u v w (d, i, s) (d', i', s') = (d' ∙ d, i' ∙ i, s' ∙ s)

exchange-SameBase :
    (now : ℤ) (ip : Str) (port : ℤ) (packet : MeshPacket) (line : Option Str) (c : Contact)
    (w : World)
    → SameBase w (exchange now ip port packet line c w).1
unfolding exchange failed write_packet audit
exchange-SameBase now ip port packet line (unreachable text) w = (refl, refl, refl)
exchange-SameBase now ip port packet none (broken text) w = (refl, refl, refl)
exchange-SameBase now ip port packet none (acknowledged elapsed) w = (refl, refl, refl)
exchange-SameBase now ip port packet (some line) (broken text) w = (refl, refl, refl)
exchange-SameBase now ip port packet (some line) (acknowledged elapsed) w = (refl, refl, refl)

either-SameBase :
    {A : Type 0} (v : World) (b : Bool) (x y : A × World)
    → SameBase v x.1
    → SameBase v y.1
    → SameBase v (if b then x else y).1
either-SameBase v true x y p q = p
either-SameBase v false x y p q = q

send_packet-SameBase :
    (now : ℤ) (ip : Str) (port : ℤ) (packet : MeshPacket) (J : JsonLib) (c : Contact) (w : World)
    → SameBase w (send_packet now ip port packet J c w).1
unfolding send_packet audit
send_packet-SameBase now ip port packet J c w =
    either-SameBase w (is_empty ip || str_eq ip (lit "127.0.0.1")) (none, w) _ (refl, refl, refl)
      (exchange-SameBase now ip port packet (packet_to_wire_json J packet) c _)

module _ (v : World) where
  pub draw-Keeps : Keeps (SameBase v) draw
  unfolding draw
  draw-Keeps = record { after = λ w h. h }

  pub next_sequence-Keeps : Keeps (SameBase v) next_sequence
  unfolding next_sequence
  next_sequence-Keeps = record { after = λ w h. h }

  pub log_event-Keeps : (now : ℤ) (text : Str) → Keeps (SameBase v) (modify (log_event now text))
  unfolding log_event
  log_event-Keeps now text = record { after = λ w h. h }

  module _ (J : JsonLib) (O : OpenSsl) (out : Outside) where
    pub new_session_id-Keeps : Keeps (SameBase v) (new_session_id J O out)
    unfolding new_session_id
    new_session_id-Keeps = search (keeps_rules, draw-Keeps)

    pub mesh_key-Keeps : Keeps (SameBase v) (mesh_key J O out)
    unfolding mesh_key
    mesh_key-Keeps = record { after = λ w h. h }

    pub seal-Keeps : (text : Str) (key : Bytes) → Keeps (SameBase v) (seal J O out text key)
    unfolding seal
    seal-Keeps text key = search (keeps_rules, draw-Keeps) depth 10

    pub transmit-Keeps :
        (ip : Str) (port : ℤ) (packet : MeshPacket)
        → Keeps (SameBase v) (transmit J O out ip port packet)
    unfolding transmit
    transmit-Keeps ip port packet = record {
      after = λ w h.
          let w' : World = record w { draws = suc w.draws } in
          SameBase-trans v w' (send_packet out.now ip port packet J (out.contact w.draws) w').1 h
            (send_packet-SameBase out.now ip port packet J (out.contact w.draws) w');
    }

    pub send_sealed-Keeps :
        (type : PacketType) (session_id : Str) (target : Option Str) (sealed : Str × Str)
        (device : TrustedDevice) (ip : Str)
        → Keeps (SameBase v) (send_sealed J O out type session_id target sealed device ip)
    unfolding send_sealed
    send_sealed-Keeps type session_id target sealed device ip =
        search (keeps_rules, next_sequence-Keeps, transmit-Keeps) depth 10

    pub if_reachable-Keeps :
        (send : Str → Act World (Option ℤ)) (ip : Option Str)
        → ((address : Str) → Keeps (SameBase v) (send address))
        → Keeps (SameBase v) (if_reachable J O out send ip)
    unfolding if_reachable
    if_reachable-Keeps send none h = pure-Keeps tt
    if_reachable-Keeps send (some ip) h = bind-Keeps (send ip) _ (h ip) λ answer. pure-Keeps tt

    pub to_each-Keeps :
        (step : TrustedDevice → Act World (Unit {0})) (devices : List TrustedDevice)
        → ((device : TrustedDevice) → Keeps (SameBase v) (step device))
        → Keeps (SameBase v) (to_each J O out step devices)
    unfolding to_each
    to_each-Keeps step [] h = pure-Keeps tt
    to_each-Keeps step (d ∷ devices) h =
        bind-Keeps (step d) _ (h d) λ done. to_each-Keeps step devices h

    pub clipboard_to-Keeps :
        (sealed : Str × Str) (device : TrustedDevice)
        → Keeps (SameBase v) (clipboard_to J O out sealed device)
    unfolding clipboard_to
    clipboard_to-Keeps sealed device =
        search (keeps_rules, new_session_id-Keeps, if_reachable-Keeps, send_sealed-Keeps) depth 10

    pub broadcast_to-Keeps :
        (text : Str) (devices : List TrustedDevice)
        → Keeps (SameBase v) (broadcast_to J O out text devices)
    unfolding broadcast_to
    broadcast_to-Keeps text [] = pure-Keeps tt
    broadcast_to-Keeps text (d ∷ devices) =
        search
          (
            keeps_rules, mesh_key-Keeps, seal-Keeps, to_each-Keeps, clipboard_to-Keeps,
            log_event-Keeps,
          )
          depth 12

    pub broadcast_clipboard-Keeps :
        (text : Str) → Keeps (SameBase v) (broadcast_clipboard J O out text)
    unfolding broadcast_clipboard
    broadcast_clipboard-Keeps text = search (keeps_rules, broadcast_to-Keeps)
