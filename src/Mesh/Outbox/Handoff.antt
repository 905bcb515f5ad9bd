-- ===== src/Mesh/Outbox/Handoff.antt =====
-- A sealed packet from one device to another (src/mesh_engine.cpp).
use rin_windows.Base.{
  ℕ, suc, Str, str_eq_self, is_empty, ℤ, true, false, [], ◌∷◌, arith, ◌≡◌, refl, ap, ◌∙◌, some,
  length, ok,
}
use rin_windows.Protocol.{MeshPacket, PacketType}
use rin_windows.Protocol.Json.{JsonLib}
use rin_windows.Crypto.OpenSsl.{OpenSsl, Bytes, AreBytes, BlockLaws, MacLaws, GcmLaws}
use rin_windows.Crypto.Keys.{KeyPair, generate_identity_keypair, derive_peer_session_key}
use rin_windows.Crypto.Keys.Agreement.{KeyLaws, session_keys_agree}
use rin_windows.Crypto.Payload.{decrypt_payload}
use rin_windows.Crypto.Payload.RoundTrip.{IsSealable, payload_round_trip}
use rin_windows.Crypto.Signature.{verify}
use rin_windows.Crypto.Signature.Checks.{SignLaws, sign-verify}
use rin_windows.Audit.{MeshAuditLogger}
use rin_windows.World.{World, audit}
use rin_windows.Mesh.Inbox.{
  signature_valid, is_targeted, peer_plain, peer_logged, decrypt_sealed, is_plaintext,
  decrypt_packet_payload,
}
use rin_windows.Mesh.Outbox.{Outside, draw, seal, packet_of}

module _ (J : JsonLib) (O : OpenSsl) (B : BlockLaws O) (M : MacLaws O) (G : GcmLaws O)
    (K : KeyLaws O) (S : SignLaws O K) (out : Outside) where
  -- With a random iv of twelve bytes, a text is sealed for the key, and signed for its sender.
  seal_lem :
      (e : ℕ) (k : KeyPair) (text : Str) (key iv : Bytes) (w : World)
      → generate_identity_keypair O e ≡ ok k
      → w.identity.local_private_key ≡ k.private_key_b64
      → out.random w.draws ≡ some iv
      → length key ≡ 32
      → length iv ≡ 12
      → AreBytes iv
      → AreBytes text
      → IsSealable O B G text
      → (encrypted : Str) × (sig : Str) × (seal J O out text key w
          ≡ (ok (encrypted, sig), record w { draws = suc (suc w.draws) }))
        × (decrypt_payload O encrypted key ≡ ok text)
        × (verify O encrypted sig k.public_key_b64 ≡ true)
  unfolding seal draw
  seal_lem e k text key iv w made own random long twelve bytes text_bytes short =
      let (encrypted, enc, dec) =
        payload_round_trip O B G text key iv long twelve bytes text_bytes short in
      let (sig, signed, valid) = sign-verify O B K S e (out.nonce (suc w.draws)) k encrypted made in
      (encrypted, sig, rw (random, enc, own, signed), dec, valid)

  verify_key_nonempty : (text sig key : Str) → verify O text sig key ≡ true → is_empty key ≡ false
  unfolding verify
  verify_key_nonempty text sig [] h = absurd (ground (arith, h))
  verify_key_nonempty text sig (c ∷ key) h = refl

  peer_logged_ok :
      (now : ℤ) (p : MeshPacket) (text : Str) (w : World)
      → (l : MeshAuditLogger) × (peer_logged O now p (ok text) w
          ≡ (ok text, record w { logger = l }))
  unfolding peer_logged audit
  peer_logged_ok now p text w = (_, refl)

  peer_plain_lem :
      (p : MeshPacket) (text : Str) (key : Bytes) (b : World)
      → derive_peer_session_key O b.identity.local_private_key p.sender_key (some p.session_id)
        ≡ ok key
      → decrypt_payload O p.payload key ≡ ok text
      → peer_plain O p b ≡ ok text
  unfolding peer_plain
  peer_plain_lem p text key b derived opened = rw derived opened

  is_targeted_lem :
      (p : MeshPacket) (key : Str) (b : World)
      → p.target_key ≡ some key
      → b.identity.local_public_key ≡ key
      → is_empty p.sender_key ≡ false
      → is_targeted O p b ≡ true
  unfolding is_targeted
  is_targeted_lem p key b named own full = rw named (rw (own, str_eq_self key, full))

  decrypt_targeted :
      (now : ℤ) (p : MeshPacket) (text : Str) (b : World)
      → is_plaintext O p.type ≡ false
      → is_targeted O p b ≡ true
      → peer_plain O p b ≡ ok text
      → (l : MeshAuditLogger) × (decrypt_packet_payload O now p b
          ≡ (ok text, record b { logger = l }))
  unfolding decrypt_packet_payload decrypt_sealed
  decrypt_targeted now p text b kind named plain =
      let (l, logged) = peer_logged_ok now p text b in (l, rw kind (rw named (rw plain logged)))

  valid_lem :
      (p : MeshPacket)
      → is_empty p.sender_key ≡ false
      → verify O p.payload p.signature p.sender_key ≡ true
      → signature_valid O p ≡ true
  valid_lem p full valid = rw (full, valid)

  -- Two devices with generated keys: what the first seals for the second, of any type that is
  -- encrypted, under their session key, the second accepts as signed by the first and decrypts to
  -- the same text. Sealing succeeds with a random iv of twelve bytes, where the sealed text is shorter
  -- than 2 ^ 31 bytes.
  pub targeted_packet_opens :
      (e f : ℕ) (k j : KeyPair) (type : PacketType) (session text : Str) (sequence now : ℤ)
      (iv : Bytes) (a b : World)
      → generate_identity_keypair O e ≡ ok k
      → generate_identity_keypair O f ≡ ok j
      → a.identity.local_public_key ≡ k.public_key_b64
      → a.identity.local_private_key ≡ k.private_key_b64
      → b.identity.local_public_key ≡ j.public_key_b64
      → b.identity.local_private_key ≡ j.private_key_b64
      → is_plaintext O type ≡ false
      → out.random a.draws ≡ some iv
      → length iv ≡ 12
      → AreBytes iv
      → AreBytes text
      → IsSealable O B G text
      → (key : Bytes) × (sealed : Str × Str) × (derive_peer_session_key O
            a.identity.local_private_key j.public_key_b64
            (some session)
          ≡ ok key)
        × (seal J O out text key a ≡ (ok sealed, record a { draws = suc (suc a.draws) }))
        × (signature_valid O
              (packet_of J O out type session sequence (some j.public_key_b64) sealed a)
            ≡ true)
        × (l : MeshAuditLogger) × (decrypt_packet_payload O now
              (packet_of J O out type session sequence (some j.public_key_b64) sealed a)
              b
            ≡ (ok text, record b { logger = l }))
  unfolding packet_of
  targeted_packet_opens e f k j type session text sequence now iv a b made other a_pub a_priv b_pub
        b_priv kind random twelve bytes text_bytes short =
      let (key, ours, theirs, long) =
        session_keys_agree O B K M e f k j (some session) made other in
      let (enc, sig, done, opened, valid) =
        seal_lem e k text key iv a made a_priv random long twelve bytes text_bytes short in
      let p = packet_of J O out type session sequence (some j.public_key_b64) (enc, sig) a in
      let full : is_empty a.identity.local_public_key ≡ false =
        rw a_pub (verify_key_nonempty enc sig k.public_key_b64 valid) in
      let signed : verify O enc sig a.identity.local_public_key ≡ true =
        ap (verify O enc sig) a_pub ∙ valid in
      let derived : derive_peer_session_key O b.identity.local_private_key
            a.identity.local_public_key (some session)
          ≡ ok key =
        rw (a_pub, b_priv) theirs in
      let (l, read) =
        decrypt_targeted now p text b kind (is_targeted_lem p j.public_key_b64 b refl b_pub full)
          (peer_plain_lem p text key b derived opened) in
      (key, (enc, sig), rw a_priv ours, done, valid_lem p full signed, l, read)
