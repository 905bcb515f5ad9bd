-- ===== src/Crypto/Signature.antt =====
-- ECDSA signatures: CryptoEngine::sign and verify (src/crypto.cpp).
pub mod Checks
use rin_windows.Base.{
  ℕ, ◌+◌, ◌-◌, Str, lit, is_empty, starts_with, starts_with-append, Bool, true, false, not, ◌||◌,
  Option, none, some, List, [], ◌∷◌, ◌++◌, ◌≡◌, refl, Result, ok, err, ◌>>=◌, drop,
  drop-append_left, length, arith, if◌then◌else◌,
}
use rin_windows.Crypto.OpenSsl.{OpenSsl, Bytes, AreBytes, BlockLaws}
use rin_windows.Crypto.Base64.{base64_encode, base64_decode}
use rin_windows.Crypto.Base64.RoundTrip.{base64_round_trip}
use rin_windows.Crypto.Keys.{openssl_or_throw, load_private_key, load_public_key}

module _ (O : OpenSsl) where
  open O use {digest_sign, digest_verify}

  -- `entropy` feeds the signature's nonce.
  unfoldable pub sign : ℕ → Str → Str → Result Str
  unfolding openssl_or_throw
  sign entropy text private_key_b64 = do
    priv ← load_private_key O private_key_b64
    sig ← openssl_or_throw O (digest_sign entropy priv text) (lit "sign: DigestSignFinal")
    ok (lit "ecdsa:" ++ base64_encode O sig)

  -- What stands in the `try`; an exception there is `false`.
  unfoldable pub check_signature : Str → Str → Str → Result Bool
  check_signature text raw_sig_b64 public_key_b64 = do
    sig_bytes ← base64_decode O raw_sig_b64
    pub_ ← load_public_key O public_key_b64
    ok (digest_verify pub_ text sig_bytes)

  -- `catch (...) { return false; }`
  unfoldable pub accepted : Result Bool → Bool
  accepted (ok valid) = valid
  accepted (err e) = false

  unfoldable pub verify : Str → Str → Str → Bool
  unfolding accepted
  verify text signature public_key_b64 =
      if is_empty signature || is_empty public_key_b64
      then false
      else if not (starts_with signature (lit "ecdsa:"))
      then false
      else accepted (check_signature text (drop 6 signature) public_key_b64)
