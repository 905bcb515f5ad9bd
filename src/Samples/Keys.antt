-- ===== src/Samples/Keys.antt =====
-- The properties of src/crypto.cpp and src/base64.cpp, at concrete values.
use rin_windows.Base.{
  Str, lit, starts_with, true, some, [], ◌∷◌, ◌≡◌, refl, ok, take, drop, length, replicate, arith,
}
use rin_windows.Crypto.OpenSsl.{Bytes}
use rin_windows.Crypto.Base64.{strip, base64_encode, base64_decode}
use rin_windows.Crypto.Base64.RoundTrip.{base64_round_trip}
use rin_windows.Crypto.Base64.Strict.{IsBase64Text, base64_decode_strict}
use rin_windows.Crypto.Hkdf.{hkdf_expand}
use rin_windows.Crypto.Hkdf.Blocks.{blocks, hkdf_expand-blocks}
use rin_windows.Crypto.Keys.{load_public_key, derive_peer_session_key}
use rin_windows.Crypto.Keys.Agreement.{session_keys_agree}
use rin_windows.Crypto.Signature.{sign, verify}
use rin_windows.Crypto.Signature.Checks.{verify_fail_closed, sign-verify}
use rin_windows.Crypto.Payload.{encrypt_payload, decrypt_payload}
use rin_windows.Crypto.Payload.RoundTrip.{payload_round_trip}
use rin_windows.Samples.ToySsl.{ssl, generated, block_laws, mac_laws, gcm_laws, key_laws, sign_laws}

base64_round_trip_example :
    base64_decode ssl (base64_encode ssl (77 ∷ 97 ∷ 255 ∷ 0 ∷ [])) ≡ ok (77 ∷ 97 ∷ 255 ∷ 0 ∷ [])
base64_round_trip_example =
    base64_round_trip ssl block_laws (77 ∷ 97 ∷ 255 ∷ 0 ∷ []) (omega arith) (omega arith)

abbrev padded : Str
padded = base64_encode ssl (77 ∷ [])

base64_decode_strict_example : IsBase64Text (strip padded)
base64_decode_strict_example =
    base64_decode_strict ssl padded (77 ∷ [])
      (base64_round_trip ssl block_laws (77 ∷ []) (omega arith) (omega arith))

hkdf_expand-blocks_example :
    hkdf_expand ssl (1 ∷ []) (2 ∷ []) 50 ≡ ok (take 50 (blocks ssl mac_laws (1 ∷ []) (2 ∷ []) 2))
hkdf_expand-blocks_example =
    hkdf_expand-blocks ssl mac_laws (1 ∷ []) (2 ∷ []) 50 2 (omega arith) (omega arith)

session_keys_agree_example :
    (key : Bytes) × (derive_peer_session_key ssl
        (generated 5).0.private_key_b64
        (generated 9).0.public_key_b64
        (some (lit "s"))
      ≡ ok key)
    × (derive_peer_session_key ssl
          (generated 9).0.private_key_b64
          (generated 5).0.public_key_b64
          (some (lit "s"))
        ≡ ok key)
    × (length key ≡ 32)
session_keys_agree_example =
    session_keys_agree ssl block_laws key_laws mac_laws 5 9 (generated 5).0 (generated 9).0
      (some (lit "s")) (generated 5).1 (generated 9).1

sign-verify_example :
    (signature : Str) × (sign ssl 3 (lit "text") (generated 5).0.private_key_b64 ≡ ok signature)
    × (verify ssl (lit "text") signature (generated 5).0.public_key_b64 ≡ true)
sign-verify_example =
    sign-verify ssl block_laws key_laws sign_laws 5 3 (generated 5).0 (lit "text") (generated 5).1

abbrev signed :
    (signature : Str) × (sign ssl 3 (lit "text") (generated 5).0.private_key_b64 ≡ ok signature)
    × (verify ssl (lit "text") signature (generated 5).0.public_key_b64 ≡ true)
signed =
    sign-verify ssl block_laws key_laws sign_laws 5 3 (generated 5).0 (lit "text") (generated 5).1

verify_fail_closed_example :
    (starts_with signed.0 (lit "ecdsa:") ≡ true)
    × (sig : Bytes) × (pub_ : ssl.PKey) × (base64_decode ssl (drop 6 signed.0) ≡ ok sig)
    × (load_public_key ssl (generated 5).0.public_key_b64 ≡ ok pub_)
    × (ssl.digest_verify pub_ (lit "text") sig ≡ true)
verify_fail_closed_example =
    verify_fail_closed ssl (lit "text") signed.0 (generated 5).0.public_key_b64 signed.2

payload_round_trip_example :
    (sealed : Str) × (encrypt_payload ssl (some (replicate 12 7)) (lit "hi") (replicate 32 1)
      ≡ ok sealed)
    × (decrypt_payload ssl sealed (replicate 32 1) ≡ ok (lit "hi"))
payload_round_trip_example =
    payload_round_trip ssl block_laws gcm_laws (lit "hi") (replicate 32 1) (replicate 12 7) refl
      refl (omega arith) (unfold lit in omega arith) (unfold lit in omega arith)
