-- ===== src/Crypto/Hkdf.antt =====
-- HKDF over HMAC-SHA256 (RFC 5869), as src/crypto.cpp writes it.
pub mod Blocks
use rin_windows.Base.{
  ℕ, zero, suc, ◌+◌, ◌-◌, ◌%◌, Str, lit, is_empty, Bool, true, false, Option, none, some, List, [],
  ◌∷◌, ◌++◌, Result, ok, err, or_throw, crypto_exception, ◌>>=◌, length, take, replicate, min, ltb,
  if◌then◌else◌,
}
use rin_windows.Crypto.OpenSsl.{OpenSsl, Bytes}

module _ (O : OpenSsl) where
  unfoldable pub hmac_sha256 : Bytes → Bytes → Result Bytes
  hmac_sha256 key message =
      or_throw (O.hmac key message) (crypto_exception (lit "hmac_sha256: " ++ O.last_error))

  unfoldable pub hkdf_extract : Bytes → Bytes → Result Bytes
  unfolding hmac_sha256
  hkdf_extract salt ikm = hmac_sha256 (if is_empty salt then replicate 32 0 else salt) ikm

  -- The `while (result.size() < length)` loop. `counter` is a uint8_t. A round adds at least a byte
  -- unless the MAC is empty, so `size` rounds are enough.
  unfoldable pub expand_loop : ℕ → Bytes → Bytes → ℕ → Bytes → Bytes → ℕ → Result Bytes
  unfolding hmac_sha256
  expand_loop zero prk info size result t counter = ok result
  expand_loop (suc fuel) prk info size result t counter = elim (ltb (length result) size) [
    | false ↦ ok result
    | true ↦
        (hmac_sha256 prk (t ++ info ++ counter ∷ []) >>= λ t'.
        expand_loop fuel prk info size (result ++ take (min (length t') (size - length result)) t')
          t' ((counter + 1) % 256))
  ]

  unfoldable pub hkdf_expand : Bytes → Bytes → ℕ → Result Bytes
  unfolding expand_loop
  hkdf_expand prk info size = expand_loop size prk info size [] [] 1

  unfoldable pub hkdf_derive_key : Bytes → Bytes → Str → Result Bytes
  unfolding hkdf_extract hkdf_expand
  hkdf_derive_key ikm salt info = do prk ← hkdf_extract salt ikm; hkdf_expand prk info 32
