-- ===== src/Crypto/Payload.antt =====
-- AES-256-GCM payloads: base64(iv | ciphertext | tag) (src/crypto.cpp). No caller passes
-- additional data, so it is empty here.
pub mod RoundTrip
use rin_windows.Base.{
  ℕ, as_int, ◌-◌, ◌+◌, Str, lit, ℤ, pos, to_string, Option, none, some, List, [], ◌++◌, Result, ok,
  err, crypto_exception, what, ◌>>=◌, length, take, drop, ltb, if◌then◌else◌,
}
use rin_windows.Crypto.OpenSsl.{OpenSsl, Bytes}
use rin_windows.Crypto.Base64.{base64_encode, base64_decode}
use rin_windows.Crypto.Keys.{openssl_or_throw}

abbrev pub gcm_iv_bytes : ℕ
gcm_iv_bytes = 12

abbrev pub gcm_tag_bytes : ℕ
gcm_tag_bytes = 16

abbrev pub min_ciphertext_bytes : ℕ
min_ciphertext_bytes = gcm_iv_bytes + gcm_tag_bytes

module _ (O : OpenSsl) where
  open O use {gcm_encrypt, gcm_decrypt}

  -- `random` is what RAND_bytes fills the iv with.
  unfoldable pub encrypt_payload : Option Bytes → Str → Bytes → Result Str
  encrypt_payload random plaintext key = do
    iv ← openssl_or_throw O random (lit "encrypt_payload: IV gen")
    (ciphertext, tag) ←
        openssl_or_throw O (gcm_encrypt key iv [] plaintext (as_int (length plaintext)))
          (lit "encrypt_payload: EncryptUpdate")
    ok (base64_encode O (iv ++ (ciphertext ++ tag)))

  -- The `catch` around base64_decode.
  unfoldable pub rethrow_base64 {ℓ} : {A : Type ℓ} → Result A → Result A
  rethrow_base64 (ok d) = ok d
  rethrow_base64 (err e) =
      err (crypto_exception (lit "decrypt_payload: malformed base64: " ++ what e))

  -- EVP_DecryptFinal_ex: its return value is the authentication check.
  unfoldable pub authenticated : Option Str → Result Str
  authenticated none = err (
      crypto_exception (lit "AES-256-GCM authentication failed (tampered ciphertext or wrong key)"))
  authenticated (some plaintext) = ok plaintext

  unfoldable pub open_sealed : Bytes → Bytes → Result Str
  unfolding authenticated
  open_sealed decoded key =
      let iv = take gcm_iv_bytes decoded in
      let body = drop gcm_iv_bytes decoded in
      let ct_len = length body - gcm_tag_bytes in
      authenticated (gcm_decrypt key iv [] (take ct_len body) (as_int ct_len) (drop ct_len body))

  unfoldable pub decrypt_payload : Str → Bytes → Result Str
  unfolding rethrow_base64 open_sealed
  decrypt_payload ciphertext_b64 key = do
    decoded ← rethrow_base64 (base64_decode O ciphertext_b64)
    if ltb (length decoded) min_ciphertext_bytes
        then err (
            crypto_exception (
              lit "decrypt_payload: ciphertext too short ("
              ++ to_string (pos (length decoded))
              ++ lit " < "
              ++ to_string (pos min_ciphertext_bytes)
              ++ lit " bytes)"))
        else open_sealed decoded key
