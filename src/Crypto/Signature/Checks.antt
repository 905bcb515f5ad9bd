-- ===== src/Crypto/Signature/Checks.antt =====
-- What a verified signature shows, and that a made signature verifies.
use rin_windows.Base.{ℤ, as_int_small}
use rin_windows.Base.{
  ℕ, ◌<◌, Str, lit, is_empty, starts_with, starts_with-append, Bool, true, false, some, [], ◌∷◌,
  ◌++◌, ◌≡◌, refl, ◌∙◌, ap, Result, ok, err, returned_parts, drop, drop_left, length, length-append,
  length-replicate, replicate, arith,
}
use rin_windows.Crypto.OpenSsl.{OpenSsl, Bytes, AreBytes, BlockLaws, IsShort, pad}
use rin_windows.Crypto.Base64.{base64_encode, base64_decode}
use rin_windows.Crypto.Base64.RoundTrip.{base64_round_trip}
use rin_windows.Crypto.Keys.{KeyPair, load_public_key, generate_identity_keypair}
use rin_windows.Crypto.Keys.Agreement.{KeyLaws, load_generated, generated_parts}
use rin_windows.Crypto.Signature.{sign, check_signature, accepted, verify}

-- What the documentation of EVP_DigestSign and EVP_DigestVerify says of a generated pair.
pub record SignLaws (O : OpenSsl) (K : KeyLaws O) : Type 0 where
  pub sign_total :
      (nonce e : ℕ) (text : Str)
      → (sig : Bytes) × (O.digest_sign nonce (K.private_of e) text ≡ some sig)
        × AreBytes sig
        × IsShort sig
        × (O.digest_verify (K.public_of e) text sig ≡ true)

module _ (O : OpenSsl) where
  accepted-ok : (r : Result Bool) → accepted O r ≡ true → r ≡ ok true
  unfolding accepted
  accepted-ok (ok b) h = ap ok h
  accepted-ok (err e) h = cc

  check_signature-true :
      (text raw key : Str)
      → accepted O (check_signature O text raw key) ≡ true
      → (sig : Bytes) × (pub_ : O.PKey) × (base64_decode O raw ≡ ok sig)
        × (load_public_key O key ≡ ok pub_)
        × (O.digest_verify pub_ text sig ≡ true)
  unfolding check_signature accepted
  check_signature-true text raw key h =
      let (sig, decoded, more) = returned_parts (base64_decode O raw) _ (accepted-ok _ h) in
      let (pub_, loaded, valid) = returned_parts (load_public_key O key) _ more in
      (sig, pub_, decoded, loaded, ground (arith, valid))

  -- A signature is accepted only if it has the prefix "ecdsa:", the rest is base64, the key loads,
  -- and OpenSSL verifies the decoded signature of exactly this text under exactly this key.
  pub verify_fail_closed :
      (text signature key : Str)
      → verify O text signature key ≡ true
      → (starts_with signature (lit "ecdsa:") ≡ true)
        × (sig : Bytes) × (pub_ : O.PKey) × (base64_decode O (drop 6 signature) ≡ ok sig)
        × (load_public_key O key ≡ ok pub_)
        × (O.digest_verify pub_ text sig ≡ true)
  unfolding verify
  verify_fail_closed text signature key h =
      let (sig, pub_, decoded, loaded, valid) =
        check_signature-true text (drop 6 signature) key (ground (arith, h)) in
      (ground (arith, h), sig, pub_, decoded, loaded, valid)

  module _ (B : BlockLaws O) (K : KeyLaws O) (S : SignLaws O K) where
    encode-nonempty :
        (d : Bytes) → IsShort d → AreBytes d → 0 < length d → is_empty (base64_encode O d) ≡ false
    unfolding base64_encode
    encode-nonempty [] s b h = absurd (omega arith)
    encode-nonempty (c ∷ d) s b h =
        let (body, shape, _, size) = B.encode_shape (c ∷ d) s b in
        ap (λ (n : ℤ). is_empty (O.encode_block (c ∷ d) n))
          (as_int_small (length (c ∷ d)) (omega (arith, s)))
        ∙ rw shape (
            nonempty (body ++ replicate (pad (length (c ∷ d))) b'=') (
              omega (
                arith,
                length-append body (replicate (pad (length (c ∷ d))) b'='),
                length-replicate {A = ℕ} (pad (length (c ∷ d))) b'=',
              )))
      where
        nonempty : (s : Str) → 0 < length s → is_empty s ≡ false
        nonempty [] h = absurd (omega arith)
        nonempty (c ∷ s) h = refl

    verify-made :
        (text sig_b64 key : Str)
        → is_empty key ≡ false
        → verify O text (lit "ecdsa:" ++ sig_b64) key
          ≡ accepted O (check_signature O text sig_b64 key)
    unfolding verify
    verify-made text sig_b64 key full =
        let some_text : is_empty (lit "ecdsa:" ++ sig_b64) ≡ false = unfold lit in refl in
        rw (
          some_text,
          full,
          starts_with-append (lit "ecdsa:") sig_b64,
          drop_left 6 (lit "ecdsa:") sig_b64 (unfold lit in refl),
        )

    -- Whatever a generated private key signs verifies under the public key of the pair.
    pub sign-verify :
        (e nonce : ℕ) (k : KeyPair) (text : Str)
        → generate_identity_keypair O e ≡ ok k
        → (signature : Str) × (sign O nonce text k.private_key_b64 ≡ ok signature)
          × (verify O text signature k.public_key_b64 ≡ true)
    unfolding sign check_signature accepted
    sign-verify e nonce k text h =
        let (priv_loads, pub_loads) = load_generated O B K e k h in
        let (priv, pub_, made, _, key_text) = generated_parts O B K e k h in
        let (_, bytes, _, short, long, _, _) = K.keygen_loads e priv pub_ made in
        let (sig, signed, sig_bytes, sig_short, valid) = S.sign_total nonce e text in
        let full : is_empty k.public_key_b64 ≡ false =
          rw key_text (encode-nonempty pub_ short bytes long) in
        (
          lit "ecdsa:" ++ base64_encode O sig,
          rw (priv_loads, signed),
          verify-made text (base64_encode O sig) k.public_key_b64 full
              ∙ rw (base64_round_trip O B sig sig_short sig_bytes, pub_loads) valid,
        )
