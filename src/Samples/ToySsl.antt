-- ===== src/Samples/ToySsl.antt =====
-- A library with the documented behaviour of the OpenSSL calls, and no strength at all.
use rin_windows.Base.{
  ℕ, ℤ, pos, suc, zero, ◌+◌, ◌%◌, ◌<◌, lit, str_eq, str_eq_self, Option, none, some, [], ◌∷◌, ◌++◌,
  ◌≡◌, refl, sym, ap, subst, length, length-append, length-replicate, length-take, take, replicate,
  arith, if◌then◌else◌,
}
use rin_windows.Crypto.OpenSsl.{OpenSsl, Bytes, AreBytes, BlockLaws, IsShort, MacLaws, GcmLaws}
use rin_windows.Base.{ok}
use rin_windows.Crypto.Keys.{KeyPair, openssl_or_throw, generate_identity_keypair}
use rin_windows.Crypto.Keys.Agreement.{KeyLaws}
use rin_windows.Crypto.Signature.Checks.{SignLaws}
use rin_windows.Samples.BlockCode.{encode_block, decode_block, decode-encode, encode_shape}

-- Thirty-two bytes of a text.
abbrev digest : Bytes → Bytes
digest d = take 32 (d ++ replicate 32 0)

abbrev sum : Bytes → ℕ
sum [] = 0
sum (b ∷ d) = b + sum d

abbrev tag_of : Bytes → Bytes → Bytes → Bytes
tag_of key iv text = replicate 16 ((sum key + sum iv + sum text) % 256)

replicate-AreBytes : (n b : ℕ) → b < 256 → AreBytes (replicate n b)
replicate-AreBytes zero b h = tt
replicate-AreBytes (suc n) b h = (h, replicate-AreBytes n b h)

seal : Bytes → Bytes → Bytes → Bytes → ℤ → Option (Bytes × Bytes)
seal key iv aad text size = some (text, tag_of key iv text)

unseal : Bytes → Bytes → Bytes → Bytes → ℤ → Bytes → Option Bytes
unseal key iv aad ct size tag = if str_eq tag (tag_of key iv ct) then some ct else none

unseal-made :
    (key iv aad text ct tag : Bytes)
    → seal key iv aad text (pos (length text)) ≡ some (ct, tag)
    → unseal key iv aad ct (pos (length ct)) tag ≡ some text
unfolding seal unseal
unseal-made key iv aad text ct tag h =
    let c : text ≡ ct = cc in
    let t : tag_of key iv text ≡ tag = cc in
    rw (sym c, sym t) (rw (str_eq_self (tag_of key iv text)) refl)

-- A key is a byte, and its DER text is that byte.
abbrev pub load : Bytes → Option ℕ
load (b ∷ []) = some b
load _ = none

pub key-loads :
    (b : ℕ) (priv pub_ : Bytes)
    → b < 256
    → ◌≡◌ {A = Option (Bytes × Bytes)} (some (b ∷ [], b ∷ [])) (some (priv, pub_))
    → AreBytes priv
      × AreBytes pub_
      × IsShort priv
      × IsShort pub_
      × (0 < length pub_)
      × (load priv ≡ some b)
      × (load pub_ ≡ some b)
key-loads b priv pub_ small h =
    let p : b ∷ [] ≡ priv = cc in
    let q : b ∷ [] ≡ pub_ = cc in
    (
      subst AreBytes p (small, tt),
      subst AreBytes q (small, tt),
      subst IsShort p (omega arith),
      subst IsShort q (omega arith),
      rw (sym q) (omega arith),
      rw (sym p),
      rw (sym q),
    )

abbrev signature_of : ℕ → Bytes → Bytes
signature_of key text = (key % 256) ∷ (sum text % 256) ∷ []

pub shared :
    (e f : ℕ) → some ((e % 256 + f % 256) % 256 ∷ []) ≡ some ((f % 256 + e % 256) % 256 ∷ [])
shared e f = ap (λ (n : ℕ). some (n % 256 ∷ [])) (omega arith)

unfoldable pub ssl : OpenSsl
unfolding seal unseal encode_block decode_block lit
ssl = record {
  PKey = ℕ;
  last_error = lit "error:0";
  encode_block = λ d size. encode_block d;
  decode_block = λ s size. decode_block s;
  d2i_private_key = load;
  d2i_public_key = load;
  keygen = λ e. some ((e % 256) ∷ [], (e % 256) ∷ []);
  derive = λ a b. some (((a + b) % 256) ∷ []);
  hmac = λ k d. some (digest (k ++ d));
  sha256 = digest;
  digest_sign = λ nonce k text. some (signature_of k text);
  digest_verify = λ k text sig. str_eq sig (signature_of k text);
  gcm_encrypt = seal;
  gcm_decrypt = unseal;
}

pub block_laws : BlockLaws ssl
unfolding ssl
block_laws = record {
  encode_shape = λ d short b. encode_shape d b;
  decode-encode = λ d short b. decode-encode d b;
}

length-digest : (d : Bytes) → length (digest d) ≡ 32
length-digest d = omega (
  arith,
  length-take 32 (d ++ replicate 32 0),
  length-append d (replicate 32 0),
  length-replicate {A = ℕ} 32 0,
)

pub mac_laws : MacLaws ssl
unfolding ssl
mac_laws = record { hmac_total = λ k d. (digest (k ++ d), refl, length-digest (k ++ d)) }

pub gcm_laws : GcmLaws ssl
unfolding ssl seal
gcm_laws = record {
  gcm_total = λ k iv aad p h g b s. (
    p,
    tag_of k iv p,
    refl,
    refl,
    length-replicate 16 ((sum k + sum iv + sum p) % 256),
    b,
    replicate-AreBytes 16 ((sum k + sum iv + sum p) % 256) (omega arith),
  );
  decrypt-encrypt = λ k iv aad p ct tag s h. unseal-made k iv aad p ct tag h;
}

unfoldable pub key_laws : KeyLaws ssl
unfolding ssl
key_laws = record {
  private_of = λ e. e % 256;
  public_of = λ e. e % 256;
  keygen_loads = λ e priv pub_ h. key-loads (e % 256) priv pub_ (omega arith) h;
  derive_agrees = λ e f. (((e % 256 + f % 256) % 256) ∷ [], refl, shared f e);
}

pub sign_laws : SignLaws ssl key_laws
unfolding ssl key_laws
sign_laws = record {
  sign_total = λ nonce e text. (
    signature_of (e % 256) text,
    refl,
    (omega arith, (omega arith, tt)),
    omega arith,
    str_eq_self (signature_of (e % 256) text),
  );
}

-- The pair that the library makes of some entropy.
pub generated : (e : ℕ) → (k : KeyPair) × (generate_identity_keypair ssl e ≡ ok k)
unfolding generate_identity_keypair openssl_or_throw ssl
generated e = (_, refl)
