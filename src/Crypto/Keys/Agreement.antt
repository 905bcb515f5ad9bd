-- ===== src/Crypto/Keys/Agreement.antt =====
-- Two devices that exchanged public keys derive the same session key.
use rin_windows.Base.{
  ℕ, ◌<◌, ◌≡◌, Str, inl, inr, [], ◌∷◌, ◌++◌, Option-cases, lit, Option, none, some, ok, length,
  arith,
}
use rin_windows.Crypto.OpenSsl.{OpenSsl, Bytes, AreBytes, BlockLaws, IsShort, MacLaws}
use rin_windows.Crypto.Base64.{base64_encode}
use rin_windows.Crypto.Base64.RoundTrip.{base64_round_trip}
use rin_windows.Crypto.Hkdf.Blocks.{mac, extracted, length-mac, hkdf_derive_key_lem}
use rin_windows.Crypto.Keys.{
  KeyPair, load_private_key, load_public_key, generate_identity_keypair, compute_ecdh_shared_secret,
  derive_peer_session_key,
}

-- What the documentation of EVP_PKEY_keygen, d2i_* and EVP_PKEY_derive says: the DER texts of a
-- generated key pair are bytes, short, the public one not empty, and load again, and the two sides of an
-- exchange agree.
pub record KeyLaws (O : OpenSsl) : Type 0 where
  pub private_of : ℕ → O.PKey
  pub public_of : ℕ → O.PKey
  pub keygen_loads :
      (e : ℕ) (priv pub_ : Bytes)
      → O.keygen e ≡ some (priv, pub_)
      → AreBytes priv
        × AreBytes pub_
        × IsShort priv
        × IsShort pub_
        × (0 < length pub_)
        × (O.d2i_private_key priv ≡ some (private_of e))
        × (O.d2i_public_key pub_ ≡ some (public_of e))
  pub derive_agrees :
      (e f : ℕ)
      → (s : Bytes) × (O.derive (private_of e) (public_of f) ≡ some s)
        × (O.derive (private_of f) (public_of e) ≡ some s)

module _ (O : OpenSsl) (B : BlockLaws O) (K : KeyLaws O) where
  -- The keys of a generated pair are the texts of its two DER encodings.
  pub generated_parts :
      (e : ℕ) (k : KeyPair)
      → generate_identity_keypair O e ≡ ok k
      → (priv pub_ : Bytes) × (O.keygen e ≡ some (priv, pub_))
        × (k.private_key_b64 ≡ base64_encode O priv)
        × (k.public_key_b64 ≡ base64_encode O pub_)
  unfolding generate_identity_keypair
  generated_parts e k h = elim (Option-cases (O.keygen e)) [
    | inl none_ ↦ absurd (ground (arith, h))
    | inr ((priv, pub_), made) ↦ (priv, pub_, made, ground (arith, h), ground (arith, h))
  ]

  -- The keys of a generated pair load as the keys that were made.
  pub load_generated :
      (e : ℕ) (k : KeyPair)
      → generate_identity_keypair O e ≡ ok k
      → (load_private_key O k.private_key_b64 ≡ ok (K.private_of e))
        × (load_public_key O k.public_key_b64 ≡ ok (K.public_of e))
  unfolding load_private_key load_public_key
  load_generated e k h =
      let (priv, pub_, made, private_text, public_text) = generated_parts e k h in
      let (priv_bytes, pub_bytes, priv_short, pub_short, _, priv_loads, pub_loads) =
        K.keygen_loads e priv pub_ made in
      (
        rw (private_text, base64_round_trip O B priv priv_short priv_bytes, priv_loads),
        rw (public_text, base64_round_trip O B pub_ pub_short pub_bytes, pub_loads),
      )

  ecdh-generated :
      (e f : ℕ) (k j : KeyPair)
      → generate_identity_keypair O e ≡ ok k
      → generate_identity_keypair O f ≡ ok j
      → (compute_ecdh_shared_secret O k.private_key_b64 j.public_key_b64
          ≡ ok (K.derive_agrees e f).0)
        × (compute_ecdh_shared_secret O j.private_key_b64 k.public_key_b64
            ≡ ok (K.derive_agrees e f).0)
  unfolding compute_ecdh_shared_secret
  ecdh-generated e f k j h g = (
    rw ((load_generated e k h).0, (load_generated f j g).1, (K.derive_agrees e f).1),
    rw ((load_generated f j g).0, (load_generated e k h).1, (K.derive_agrees e f).2),
  )

  -- Two devices with generated keys that know each other's public key derive, for the same session,
  -- the same key, of 32 bytes.
  pub session_keys_agree :
      MacLaws O
      → (e f : ℕ) (k j : KeyPair) (session : Option Str) → generate_identity_keypair O e ≡ ok k
      → generate_identity_keypair O f ≡ ok j
      → (key : Bytes) × (derive_peer_session_key O k.private_key_b64 j.public_key_b64 session
          ≡ ok key)
        × (derive_peer_session_key O j.private_key_b64 k.public_key_b64 session ≡ ok key)
        × (length key ≡ 32)
  unfolding derive_peer_session_key
  session_keys_agree M e f k j session h g =
      let (one, other) = ecdh-generated e f k j h g in
      let derived = hkdf_derive_key_lem O M secret (salt session) info in
      (
        mac O M (extracted O M secret (salt session) info) (info ++ 1 ∷ []),
        rw one derived,
        rw other derived,
        length-mac O M _ _,
      )
    where
      secret : Bytes
      secret = (K.derive_agrees e f).0

      info : Str
      info = lit "rin-p2p-session-key-v1"

      salt : Option Str → Bytes
      salt o = elim o [ none ↦ [] | some s ↦ s ]
