-- ===== src/Mesh/Service/Admission.antt =====
-- What a line from the network can do (src/transport.cpp with the callbacks of src/mesh_engine.cpp).
use rin_windows.Base.{
  Str, is_empty, Bool, true, false, Bool-cases, ◌≡◌, ◌⊎◌, inl, inr, refl, Option, none, some, [],
  ◌∷◌, ◌++◌,
}
use rin_windows.Protocol.{MeshPacket}
use rin_windows.Protocol.Json.{JsonLib}
use rin_windows.Protocol.Wire.{packet_from_wire_json}
use rin_windows.Crypto.OpenSsl.{OpenSsl}
use rin_windows.Audit.{MeshAuditLogger}
use rin_windows.World.{World, audit}
use rin_windows.Transport.{acknowledge, admit, admit_parsed, handle_connection}
use rin_windows.Mesh.Inbox.{Surroundings, signature_valid, verify_packet_signature}
use rin_windows.Mesh.Inbox.Dispatch.{on_packet_received}
use rin_windows.Mesh.Service.{incoming}

module _ (J : JsonLib) (O : OpenSsl) (downloads : Str) (s : Surroundings) where
  abbrev Ignored : World → World → Type 0
  Ignored w w' = (l : MeshAuditLogger) × (w' ≡ record w { logger = l })

  abbrev Handled : Str → World → World → Type 0
  Handled line w w' =
      (packet : MeshPacket) × (l : MeshAuditLogger) × (packet_from_wire_json J s.now line
        ≡ some packet)
      × (signature_valid O packet ≡ true)
      × (w'
          ≡ (on_packet_received J O downloads s packet
              (record w { logger = l; acks = w.acks ++ packet.sequence ∷ [] })).1)

  admit_lem :
      (acked : Bool) (line : Str) (packet : MeshPacket) (w : World) (valid : Bool)
      (l : MeshAuditLogger)
      → packet_from_wire_json J s.now line ≡ some packet
      → signature_valid O packet ≡ valid
      → Ignored w (
          admit J
            (verify_packet_signature O s.now)
            (on_packet_received J O downloads s)
            acked
            packet
            (valid, record w { logger = l }))
        ⊎ Handled line w (
            admit J
              (verify_packet_signature O s.now)
              (on_packet_received J O downloads s)
              acked
              packet
              (valid, record w { logger = l }))
  unfolding admit acknowledge
  admit_lem acked line packet w false l parsed v = inl (l, refl)
  admit_lem false line packet w true l parsed v = inl (l, refl)
  admit_lem true line packet w true l parsed v = inr (packet, l, parsed, v, refl)

  admit_parsed_lem :
      (acked : Bool) (line : Str) (o : Option MeshPacket) (w : World)
      → packet_from_wire_json J s.now line ≡ o
      → Ignored w (
          admit_parsed J
            (verify_packet_signature O s.now)
            (on_packet_received J O downloads s)
            acked
            o
            w)
        ⊎ Handled line w (
            admit_parsed J
              (verify_packet_signature O s.now)
              (on_packet_received J O downloads s)
              acked
              o
              w)
  unfolding admit_parsed verify_packet_signature audit
  admit_parsed_lem acked line none w parsed = inl (w.logger, refl)
  admit_parsed_lem acked line (some packet) w parsed =
      admit_lem acked line packet w (signature_valid O packet) _ parsed refl

  -- A line that arrives changes nothing but the audit log, unless it is a packet whose signature
  -- verifies under its own sender key. Then the packet is acknowledged before it is handled.
  pub incoming_lem :
      (acked : Bool) (line : Str) (w : World)
      → ((l : MeshAuditLogger) × (incoming J O downloads s acked line w ≡ record w { logger = l }))
        ⊎ ((packet : MeshPacket) × (l : MeshAuditLogger) × (packet_from_wire_json J s.now line
              ≡ some packet)
            × (signature_valid O packet ≡ true)
            × (incoming J O downloads s acked line w
                ≡ (on_packet_received J O downloads s packet
                    (record w { logger = l; acks = w.acks ++ packet.sequence ∷ [] })).1))
  unfolding incoming handle_connection
  incoming_lem acked line w = elim (Bool-cases (is_empty line)) [
    | inl blank ↦ inl (w.logger, rw blank)
    | inr full ↦ rw full (admit_parsed_lem acked line _ w refl)
  ]
