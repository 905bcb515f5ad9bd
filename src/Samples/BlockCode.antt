-- ===== src/Samples/BlockCode.antt =====
-- Base64 blocks as EVP_EncodeBlock writes them and EVP_DecodeBlock reads them.
use rin_windows.Base.{
  ℕ, ◌+◌, ◌-◌, ◌*◌, ◌/◌, ◌%◌, ◌<◌, Str, true, ◌&&◌, Option, none, some, [], ◌∷◌, ◌++◌, ◌≡◌, refl,
  length, replicate, All, passes_below, passes_below_lem, ltb, leb, ◌==◌, ==_iff, arith,
  if◌then◌else◌,
}
use rin_windows.Crypto.OpenSsl.{Bytes, AreBytes, pad, is_alphabet}

char_of : ℕ → ℕ
char_of n =
    if ltb n 26
    then b'A' + n
    else if ltb n 52
    then b'a' + (n - 26)
    else if ltb n 62
    then b'0' + (n - 52)
    else if n == 62
    then b'+'
    else b'/'

value_of : ℕ → ℕ
value_of c =
    if leb b'A' c && leb c b'Z'
    then c - b'A'
    else if leb b'a' c && leb c b'z'
    then c - b'a' + 26
    else if leb b'0' c && leb c b'9'
    then c - b'0' + 52
    else if c == b'+'
    then 62
    else if c == b'/'
    then 63
    else 0

value_table : passes_below (λ n. value_of (char_of n) == n) 64 ≡ true
unfolding passes_below char_of value_of
value_table = refl

value-char : (n : ℕ) → n < 64 → value_of (char_of n) ≡ n
value-char n h = (==_iff _ n).0 (passes_below_lem _ 64 n h value_table)

alphabet_table : passes_below (λ n. is_alphabet (char_of n)) 64 ≡ true
unfolding passes_below char_of
alphabet_table = refl

alphabet-char : (n : ℕ) → n < 64 → is_alphabet (char_of n) ≡ true
alphabet-char n h = passes_below_lem (λ k. is_alphabet (char_of k)) 64 n h alphabet_table

unfoldable pub encode_block : Bytes → Str
unfolding char_of
encode_block [] = []
encode_block (a ∷ []) = char_of (a / 4) ∷ char_of (a % 4 * 16) ∷ b'=' ∷ b'=' ∷ []
encode_block (a ∷ b ∷ []) =
    char_of (a / 4) ∷ char_of (a % 4 * 16 + b / 16) ∷ char_of (b % 16 * 4) ∷ b'=' ∷ []
encode_block (a ∷ b ∷ c ∷ d) =
    char_of (a / 4)
    ∷ char_of (a % 4 * 16 + b / 16)
    ∷ char_of (b % 16 * 4 + c / 64)
    ∷ char_of (c % 64)
    ∷ encode_block d

-- The three bytes of four values.
abbrev triple : ℕ → ℕ → ℕ → ℕ → Bytes → Bytes
triple w x y z rest = (w * 4 + x / 16) ∷ (x % 16 * 16 + y / 4) ∷ (y % 4 * 64 + z) ∷ rest

abbrev before : Bytes → Option Bytes → Option Bytes
before d none = none
before d (some rest) = some (d ++ rest)

unfoldable pub decode_block : Str → Option Bytes
unfolding value_of
decode_block [] = some []
decode_block (w ∷ []) = none
decode_block (w ∷ x ∷ []) = none
decode_block (w ∷ x ∷ y ∷ []) = none
decode_block (w ∷ x ∷ y ∷ z ∷ s) =
    before (triple (value_of w) (value_of x) (value_of y) (value_of z) []) (decode_block s)

value_pad : value_of b'=' ≡ 0
unfolding value_of
value_pad = refl

three :
    {a b c d e f : ℕ} {rest : Bytes}
    → a ≡ d
    → b ≡ e
    → c ≡ f
    → some (a ∷ b ∷ c ∷ rest) ≡ some (d ∷ e ∷ f ∷ rest)
three p q r = rw (p, q, r)

pub decode-encode :
    (d : Bytes)
    → AreBytes d
    → decode_block (encode_block d) ≡ some (d ++ replicate (pad (length d)) 0)
unfolding encode_block decode_block
decode-encode [] b = refl
decode-encode (a ∷ []) (ha, _) =
    rw (value-char (a / 4) (omega arith), value-char (a % 4 * 16) (omega arith), value_pad)
      (three (omega arith) (omega arith) (omega arith))
decode-encode (a ∷ b ∷ []) (ha, (hb, _)) =
    rw
      (
        value-char (a / 4) (omega arith),
        value-char (a % 4 * 16 + b / 16) (omega arith),
        value-char (b % 16 * 4) (omega arith),
        value_pad,
      )
      (three (omega arith) (omega arith) (omega arith))
decode-encode (a ∷ b ∷ c ∷ d) (ha, (hb, (hc, hd))) =
    let same : pad (length (a ∷ b ∷ c ∷ d)) ≡ pad (length d) = omega arith in
    rw
      (
        value-char (a / 4) (omega arith),
        value-char (a % 4 * 16 + b / 16) (omega arith),
        value-char (b % 16 * 4 + c / 64) (omega arith),
        value-char (c % 64) (omega arith),
        decode-encode d hd,
        same,
      )
      (three (omega arith) (omega arith) (omega arith))

pub encode_shape :
    (d : Bytes)
    → AreBytes d
    → (body : Str) × (encode_block d ≡ body ++ replicate (pad (length d)) b'=')
      × All (λ c. is_alphabet c ≡ true) body
      × (length body + pad (length d) ≡ 4 * ((length d + 2) / 3))
unfolding encode_block
encode_shape [] b = ([], refl, tt, refl)
encode_shape (a ∷ []) (ha, _) = (
  char_of (a / 4) ∷ char_of (a % 4 * 16) ∷ [],
  refl,
  (alphabet-char (a / 4) (omega arith), (alphabet-char (a % 4 * 16) (omega arith), tt)),
  refl,
)
encode_shape (a ∷ b ∷ []) (ha, (hb, _)) = (
  char_of (a / 4) ∷ char_of (a % 4 * 16 + b / 16) ∷ char_of (b % 16 * 4) ∷ [],
  refl,
  (
    alphabet-char (a / 4) (omega arith),
    (
      alphabet-char (a % 4 * 16 + b / 16) (omega arith),
      (alphabet-char (b % 16 * 4) (omega arith), tt),
    ),
  ),
  refl,
)
encode_shape (a ∷ b ∷ c ∷ d) (ha, (hb, (hc, hd))) =
    let (body, shape, all, size) = encode_shape d hd in
    let same : pad (length (a ∷ b ∷ c ∷ d)) ≡ pad (length d) = omega arith in
    (
      char_of (a / 4)
          ∷ char_of (a % 4 * 16 + b / 16)
          ∷ char_of (b % 16 * 4 + c / 64)
          ∷ char_of (c % 64)
          ∷ body,
      rw (shape, same),
      (
        alphabet-char (a / 4) (omega arith),
        (
          alphabet-char (a % 4 * 16 + b / 16) (omega arith),
          (
            alphabet-char (b % 16 * 4 + c / 64) (omega arith),
            (alphabet-char (c % 64) (omega arith), all),
          ),
        ),
      ),
      omega (arith, size),
    )
