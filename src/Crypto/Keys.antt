-- ===== src/Crypto/Keys.antt =====
-- Key pairs, ECDH and the two AES keys that are derived with HKDF (src/crypto.cpp).
pub mod Agreement
use rin_windows.Base.{
  ℕ, ◌-◌, Str, lit, is_empty, substr, Option, none, some, List, [], ◌++◌, Result, ok, err, or_throw,
  crypto_exception, ◌>>=◌, length, drop, if◌then◌else◌,
}
use rin_windows.Crypto.OpenSsl.{OpenSsl, Bytes}
use rin_windows.Crypto.Base64.{base64_encode, base64_decode}
use rin_windows.Crypto.Hex.{bytes_to_hex}
use rin_windows.Crypto.Hkdf.{hkdf_derive_key}

pub record KeyPair : Type 0 where
  pub public_key_b64 : Str
  pub private_key_b64 : Str
  pub fingerprint : Str

module _ (O : OpenSsl) where
  open O use {PKey, last_error, d2i_private_key, d2i_public_key, keygen, derive, sha256}

  -- throw_openssl_error(context)
  unfoldable pub openssl_or_throw {ℓ} : {A : Type ℓ} → Option A → Str → Result A
  openssl_or_throw o context = or_throw o (crypto_exception (context ++ lit ": " ++ last_error))

  unfoldable pub load_private_key : Str → Result PKey
  unfolding openssl_or_throw
  load_private_key private_key_b64 = do
    der ← base64_decode O private_key_b64
    openssl_or_throw (d2i_private_key der) (lit "load_private_key: invalid PKCS8 EC key")

  unfoldable pub load_public_key : Str → Result PKey
  unfolding openssl_or_throw
  load_public_key public_key_b64 = do
    der ← base64_decode O public_key_b64
    openssl_or_throw (d2i_public_key der) (lit "load_public_key: invalid X.509 EC key")

  -- "key:" with the first six and the last four digits of the hash
  unfoldable pub fingerprint_of : Bytes → Str
  fingerprint_of pub_der =
      let hex = bytes_to_hex (sha256 pub_der) in
      lit "key:" ++ substr hex 0 6 ++ lit "..." ++ drop (length hex - 4) hex

  unfoldable pub generate_identity_keypair : ℕ → Result KeyPair
  unfolding openssl_or_throw fingerprint_of
  generate_identity_keypair entropy = do
    (priv_der, pub_der) ← openssl_or_throw (keygen entropy) (lit "generate_identity_keypair")
    ok (record {
      public_key_b64 = base64_encode O pub_der;
      private_key_b64 = base64_encode O priv_der;
      fingerprint = fingerprint_of pub_der;
    })

  unfoldable pub compute_ecdh_shared_secret : Str → Str → Result Bytes
  unfolding openssl_or_throw load_private_key load_public_key
  compute_ecdh_shared_secret local_private_key_b64 remote_public_key_b64 = do
    priv ← load_private_key local_private_key_b64
    pub_ ← load_public_key remote_public_key_b64
    openssl_or_throw (derive priv pub_) (lit "compute_ecdh_shared_secret: derive")

  unfoldable pub derive_peer_session_key : Str → Str → Option Str → Result Bytes
  derive_peer_session_key local_private_key_b64 remote_public_key_b64 session_id = do
    shared_secret ← compute_ecdh_shared_secret local_private_key_b64 remote_public_key_b64
    hkdf_derive_key O shared_secret (elim session_id [ none ↦ [] | some s ↦ s ])
        (lit "rin-p2p-session-key-v1")

  unfoldable pub mesh_key_material : Str → Str → Bytes
  mesh_key_material mesh_secret mesh_name =
      if is_empty mesh_secret
      then lit "rin_seed_" ++ bytes_to_hex (sha256 mesh_name)
      else mesh_secret

  unfoldable pub derive_mesh_encryption_key : Str → Str → Result Bytes
  unfolding mesh_key_material
  derive_mesh_encryption_key mesh_secret mesh_name =
      hkdf_derive_key O (mesh_key_material mesh_secret mesh_name) mesh_name
        (lit "rin-mesh-broadcast-v1")
