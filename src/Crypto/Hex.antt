-- ===== src/Crypto/Hex.antt =====
-- CryptoEngine::bytes_to_hex and the random names that are made with it (src/crypto.cpp).
use rin_windows.Base.{
  ℕ, ◌+◌, ◌*◌, ◌/◌, ◌%◌, ◌<◌, Str, lit, true, Option, none, some, [], ◌∷◌, ◌++◌, ◌≡◌, refl, ap, ap₂,
  ◌∙◌, sym, Result, ok, err, crypto_exception, ◌>>=◌, length, get_elem?, ◌==◌, ==_iff, arith,
  if◌then◌else◌, passes_below, passes_below_lem,
}
use rin_windows.Crypto.OpenSsl.{OpenSsl, Bytes, AreBytes}

-- hex_chars[n]
unfoldable pub hex_char : ℕ → ℕ
unfolding lit
hex_char n = elim (get_elem? (lit "0123456789abcdef") n) [ none ↦ 0 | some c ↦ c ]

-- b >> 4 and b & 0x0F, for each byte
unfoldable pub bytes_to_hex : Bytes → Str
bytes_to_hex [] = []
bytes_to_hex (b ∷ d) = hex_char (b / 16) ∷ hex_char (b % 16) ∷ bytes_to_hex d

-- The number that a hexadecimal digit stands for.
hex_value : ℕ → ℕ
hex_value c =
    if c == b'a'
    then 10
    else if c == b'b'
    then 11
    else if c == b'c'
    then 12
    else if c == b'd'
    then 13
    else if c == b'e'
    then 14
    else if c == b'f'
    then 15
    else c % 16

value_table : passes_below (λ n. hex_value (hex_char n) == n) 16 ≡ true
unfolding hex_value hex_char passes_below
value_table = refl

value-hex_char : (n : ℕ) → n < 16 → hex_value (hex_char n) ≡ n
value-hex_char n h = (==_iff _ n).0 (passes_below_lem _ 16 n h value_table)

pub length-bytes_to_hex : (d : Bytes) → length (bytes_to_hex d) ≡ 2 * length d
unfolding bytes_to_hex
length-bytes_to_hex [] = refl
length-bytes_to_hex (b ∷ d) = omega (arith, length-bytes_to_hex d)

abbrev first : Str → ℕ
first [] = 0
first (c ∷ s) = c

abbrev rest : Str → Str
rest [] = []
rest (c ∷ s) = s

-- A byte is read back from its two digits.
byte_of_digits :
    (b : ℕ) → b < 256 → hex_value (hex_char (b / 16)) * 16 + hex_value (hex_char (b % 16)) ≡ b
byte_of_digits b h =
    rw (value-hex_char (b / 16) (omega arith), value-hex_char (b % 16) (omega arith)) (omega arith)

-- Different byte strings have different hexadecimal texts.
pub bytes_to_hex_injective :
    (d e : Bytes) → AreBytes d → AreBytes e → bytes_to_hex d ≡ bytes_to_hex e → d ≡ e
unfolding bytes_to_hex
bytes_to_hex_injective [] [] g h p = refl
bytes_to_hex_injective [] (c ∷ e) g h p = cc
bytes_to_hex_injective (b ∷ d) [] g h p = cc
bytes_to_hex_injective (b ∷ d) (c ∷ e) (gb, g) (hc, h) p =
    let same : b ≡ c =
      sym (byte_of_digits b gb)
      ∙ ap (λ (s : Str). hex_value (first s) * 16 + hex_value (first (rest s))) p
      ∙ byte_of_digits c hc in
    ap₂ ◌∷◌ same (bytes_to_hex_injective d e g h (ap (λ (s : Str). rest (rest s)) p))

-- What RAND_bytes filled a buffer with, or an exception.
module _ (O : OpenSsl) where
  unfoldable pub random_bytes : Str → Option Bytes → Result Bytes
  random_bytes context none = err (crypto_exception (context ++ lit ": " ++ O.last_error))
  random_bytes context (some buf) = ok buf

  unfoldable pub named_random : Str → Str → Option Bytes → Result Str
  unfolding random_bytes
  named_random context prefix r = random_bytes context r >>= λ buf. ok (prefix ++ bytes_to_hex buf)

  -- 32 random bytes
  unfoldable pub generate_ephemeral_secret : Option Bytes → Result Str
  unfolding named_random
  generate_ephemeral_secret = named_random (lit "generate_ephemeral_secret") []

  -- 16 random bytes
  unfoldable pub generate_ephemeral_token : Option Bytes → Result Str
  unfolding named_random
  generate_ephemeral_token = named_random (lit "generate_ephemeral_token") (lit "rin_join_")

  -- 8 random bytes
  unfoldable pub generate_session_id : Option Bytes → Result Str
  unfolding named_random
  generate_session_id = named_random (lit "generate_session_id") (lit "sess_")
