-- ===== src/Crypto/Payload/RoundTrip.antt =====
-- Decryption undoes encryption.
use rin_windows.Base.{as_int_small, pos, ◌/◌, ◌*◌, ◌<◌, ◌^◌}
use rin_windows.Base.{
  ◌+◌, ◌-◌, ◌≡◌, refl, ◌∙◌, Str, some, false, [], ◌∷◌, ◌++◌, ok, length, length-append, take_left,
  drop_left, arith, ltb,
}
use rin_windows.Crypto.OpenSsl.{OpenSsl, Bytes, AreBytes, BlockLaws, IsShort, GcmLaws}
use rin_windows.Crypto.Base64.{base64_encode}
use rin_windows.Crypto.Base64.RoundTrip.{base64_round_trip}
use rin_windows.Crypto.Keys.{openssl_or_throw}
use rin_windows.Crypto.Payload.{encrypt_payload, rethrow_base64, open_sealed, decrypt_payload}

AreBytes-append : (xs ys : Bytes) → AreBytes xs → AreBytes ys → AreBytes (xs ++ ys)
AreBytes-append [] ys a b = b
AreBytes-append (x ∷ xs) ys (h, a) b = (h, AreBytes-append xs ys a b)

module _ (O : OpenSsl) (B : BlockLaws O) (G : GcmLaws O) where
  -- What a receiver does with iv | ciphertext | tag, for any key.
  pub decrypt_payload-sealed :
      (key iv ct tag : Bytes)
      → IsShort (iv ++ (ct ++ tag))
      → AreBytes (iv ++ (ct ++ tag))
      → length iv ≡ 12
      → length tag ≡ 16
      → decrypt_payload O (base64_encode O (iv ++ (ct ++ tag))) key
        ≡ open_sealed O (iv ++ (ct ++ tag)) key
  unfolding decrypt_payload
  decrypt_payload-sealed key iv ct tag s b i t =
      let size : length (iv ++ (ct ++ tag)) ≡ length iv + length ct + length tag =
        omega (arith, length-append iv (ct ++ tag), length-append ct tag) in
      let long : ltb (length iv + length ct + length tag) 28 ≡ false = ground arith in
      rw (base64_round_trip O B (iv ++ (ct ++ tag)) s b, rethrow_base64) (rw (size, long))

  open_sealed-parts :
      (key iv ct tag : Bytes)
      → length iv ≡ 12
      → length tag ≡ 16
      → length ct < 2 ^ 31
      → (p : Str) → O.gcm_decrypt key iv [] ct (pos (length ct)) tag ≡ some p
      → open_sealed O (iv ++ (ct ++ tag)) key ≡ ok p
  unfolding open_sealed
  open_sealed-parts key iv ct tag i t fits p h =
      let cut : length (ct ++ tag) - 16 ≡ length ct = omega (arith, length-append ct tag) in
      rw (
        take_left 12 iv (ct ++ tag) i,
        drop_left 12 iv (ct ++ tag) i,
        cut,
        as_int_small (length ct) fits,
        take_left (length ct) ct tag refl,
        drop_left (length ct) ct tag refl,
        h,
      )

  -- The size of the base64 text of iv, ciphertext and tag fits an int.
  abbrev pub IsSealable : Str → Type 0
  IsSealable text = 4 * ((length text + 30) / 3) < 2 ^ 31

  -- A payload that was encrypted under a key is decrypted with that key to the same text. Encryption
  -- succeeds for every text of bytes whose sealed form is shorter than 2 ^ 31 bytes, 32-byte key and
  -- 12-byte iv.
  pub payload_round_trip :
      (text : Str) (key iv : Bytes)
      → length key ≡ 32
      → length iv ≡ 12
      → AreBytes iv
      → AreBytes text
      → IsSealable text
      → (sealed : Str) × (encrypt_payload O (some iv) text key ≡ ok sealed)
        × (decrypt_payload O sealed key ≡ ok text)
  unfolding encrypt_payload openssl_or_throw base64_encode
  payload_round_trip text key iv k i b text_bytes short =
      let fits : length text < 2 ^ 31 = omega arith in
      let (ct, tag, made, n, t, cb, tb) = G.gcm_total key iv [] text k i text_bytes fits in
      (
        base64_encode O (iv ++ (ct ++ tag)),
        rw (as_int_small (length text) fits, made),
        decrypt_payload-sealed key iv ct tag
              (omega (arith, length-append iv (ct ++ tag), length-append ct tag))
              (AreBytes-append iv (ct ++ tag) b (AreBytes-append ct tag cb tb)) i t
            ∙ open_sealed-parts key iv ct tag i t (omega arith) text
                (G.decrypt-encrypt key iv [] text ct tag fits made),
      )
