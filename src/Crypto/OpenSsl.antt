-- ===== src/Crypto/OpenSsl.antt =====
-- The OpenSSL calls that the program makes: a parameter. `none` is a failure that they report.
use rin_windows.Base.{
  ℕ, ℤ, pos, ◌^◌, ◌+◌, ◌-◌, ◌*◌, ◌/◌, ◌%◌, ◌<◌, Str, Bool, true, ◌||◌, ◌&&◌, Option, some, List,
  ◌++◌, ◌≡◌, length, replicate, All, leb, ◌==◌,
}

abbrev pub Bytes : Type 0
Bytes = List ℕ

abbrev pub AreBytes : Bytes → Type 0
AreBytes = All (λ (b : ℕ). b < 256)

-- How many '=' end the base64 text of n bytes.
abbrev pub pad : ℕ → ℕ
pad n = (3 - n % 3) % 3

pub record OpenSsl : Type 1 where
  pub PKey : Type 0
  -- ERR_error_string_n
  pub last_error : Str
  -- EVP_EncodeBlock, EVP_DecodeBlock, with the int that says how many bytes to read
  pub encode_block : Bytes → ℤ → Str
  pub decode_block : Str → ℤ → Option Bytes
  -- d2i_AutoPrivateKey, d2i_PUBKEY
  pub d2i_private_key : Bytes → Option PKey
  pub d2i_public_key : Bytes → Option PKey
  -- The P-256 key pair made from some entropy: PKCS8 and SubjectPublicKeyInfo DER.
  pub keygen : ℕ → Option (Bytes × Bytes)
  -- EVP_PKEY_derive: own key, peer's key
  pub derive : PKey → PKey → Option Bytes
  -- HMAC(EVP_sha256()): key, data
  pub hmac : Bytes → Bytes → Option Bytes
  pub sha256 : Bytes → Bytes
  -- EVP_DigestSign* with the nonce's entropy, EVP_DigestVerify*
  pub digest_sign : ℕ → PKey → Bytes → Option Bytes
  pub digest_verify : PKey → Bytes → Bytes → Bool
  -- EVP_aes_256_gcm: key, iv, additional data, text with its int size; the tag is a separate value
  pub gcm_encrypt : Bytes → Bytes → Bytes → Bytes → ℤ → Option (Bytes × Bytes)
  pub gcm_decrypt : Bytes → Bytes → Bytes → Bytes → ℤ → Bytes → Option Bytes

-- The base64 alphabet, as EVP_EncodeBlock writes it.
abbrev pub is_alphabet : ℕ → Bool
is_alphabet c =
    (leb b'A' c && leb c b'Z')
    || (leb b'a' c && leb c b'z')
    || (leb b'0' c && leb c b'9')
    || c == b'+'
    || c == b'/'

-- The size of the base64 text fits an int.
abbrev pub IsShort : Bytes → Type 0
IsShort d = 4 * ((length d + 2) / 3) < 2 ^ 31

-- What the documentation of EVP_EncodeBlock and EVP_DecodeBlock says.
pub record BlockLaws (O : OpenSsl) : Type 0 where
  pub encode_shape :
      (d : Bytes)
      → IsShort d
      → AreBytes d
      → (body : Str) × (O.encode_block d (pos (length d)) ≡ body ++ replicate (pad (length d)) b'=')
        × All (λ c. is_alphabet c ≡ true) body
        × (length body + pad (length d) ≡ 4 * ((length d + 2) / 3))
  pub decode-encode :
      (d : Bytes)
      → IsShort d
      → AreBytes d
      → O.decode_block (O.encode_block d (pos (length d))) (pos (4 * ((length d + 2) / 3)))
        ≡ some (d ++ replicate (pad (length d)) 0)

-- What the documentation of HMAC and of AES-256-GCM says, for a library that does not run out of
-- memory: sizes, and that decryption undoes encryption.
pub record MacLaws (O : OpenSsl) : Type 0 where
  pub hmac_total : (k d : Bytes) → (t : Bytes) × (O.hmac k d ≡ some t) × (length t ≡ 32)

pub record GcmLaws (O : OpenSsl) : Type 0 where
  pub gcm_total :
      (k iv aad p : Bytes)
      → length k ≡ 32
      → length iv ≡ 12
      → AreBytes p
      → length p < 2 ^ 31
      → (ct tag : Bytes) × (O.gcm_encrypt k iv aad p (pos (length p)) ≡ some (ct, tag))
        × (length ct ≡ length p)
        × (length tag ≡ 16)
        × AreBytes ct
        × AreBytes tag
  pub decrypt-encrypt :
      (k iv aad p ct tag : Bytes)
      → length p < 2 ^ 31
      → O.gcm_encrypt k iv aad p (pos (length p)) ≡ some (ct, tag)
      → O.gcm_decrypt k iv aad ct (pos (length ct)) tag ≡ some p
