-- ===== src/Crypto/Base64.antt =====
-- src/base64.cpp
pub mod RoundTrip
pub mod Strict
use rin_windows.Base.{
  ℕ, as_int, suc, ◌-◌, ◌%◌, Str, lit, is_empty, Bool, true, false, not, ◌&&◌, ◌||◌, Option, none,
  some, List, [], ◌∷◌, Result, ok, err, crypto_exception, length, get_elem?, take, ltb, leb, ◌==◌,
  if◌then◌else◌,
}
use rin_windows.Crypto.OpenSsl.{OpenSsl, Bytes}

unfoldable pub is_base64_char : ℕ → Bool
is_base64_char c =
    (leb b'A' c && leb c b'Z')
    || (leb b'a' c && leb c b'z')
    || (leb b'0' c && leb c b'9')
    || c == b'+'
    || c == b'/'

-- The bytes of `encoded` but '\n', '\r' and ' '.
unfoldable pub strip : Str → Str
strip [] = []
strip (c ∷ s) =
    let rest = strip s in if not (c == 10) && not (c == 13) && not (c == 32) then c ∷ rest else rest

-- Whether the byte k places from the end is '='.
unfoldable pub is_pad : ℕ → Str → Bool
is_pad k s = elim (get_elem? s (length s - k)) [ none ↦ false | some c ↦ c == b'=' ]

unfoldable pub padding : Str → ℕ
unfolding is_pad
padding clean =
    let one = if is_pad 1 clean then 1 else 0 in
    if leb 2 (length clean) && is_pad 2 clean then suc one else one

unfoldable pub all_base64 : Str → Bool
unfolding is_base64_char
all_base64 [] = true
all_base64 (c ∷ s) = is_base64_char c && all_base64 s

module _ (O : OpenSsl) where
  unfoldable pub base64_encode : Bytes → Str
  base64_encode [] = []
  base64_encode (b ∷ d) = O.encode_block (b ∷ d) (as_int (length (b ∷ d)))

  -- The decoded block without the bytes that the padding stands for.
  unfoldable pub trim : ℕ → Option Bytes → Result Bytes
  trim n none = err (crypto_exception (lit "base64_decode: malformed input"))
  trim n (some out) =
      if ltb (length out) n
      then err (crypto_exception (lit "base64_decode: malformed input"))
      else ok (take (length out - n) out)

  unfoldable pub decode_clean : Str → Result Bytes
  unfolding trim
  decode_clean clean =
      if is_empty clean || not (length clean % 4 == 0)
      then err (crypto_exception (lit "base64_decode: malformed input (bad length)"))
      else if not (all_base64 (take (length clean - padding clean) clean))
      then err (crypto_exception (lit "base64_decode: malformed input (invalid character)"))
      else trim (padding clean) (O.decode_block clean (as_int (length clean)))

  unfoldable pub base64_decode : Str → Result Bytes
  unfolding decode_clean
  base64_decode [] = ok []
  base64_decode (c ∷ s) = decode_clean (strip (c ∷ s))
