-- ===== src/Crypto/Base64/RoundTrip.antt =====
-- Decoding undoes encoding.
use rin_windows.Base.{ℤ, as_int_small, pos, sym, ◌<◌, ◌^◌}
use rin_windows.Base.{
  zero, ◌≤◌, ℕ, suc, ◌+◌, ◌-◌, ◌%◌, ◌<◌, Str, is_empty, Bool, true, false, Option, none, some, [],
  ◌∷◌, ◌++◌, ◌≡◌, refl, ap, ◌∙◌, ok, length, length-append, length-replicate, take-append_left,
  get_elem?, replicate, All, ltb, ◌==◌, arith, dec_lt,
}
use rin_windows.Crypto.OpenSsl.{OpenSsl, Bytes, AreBytes, BlockLaws, IsShort, pad, is_alphabet}
use rin_windows.Crypto.Base64.{
  strip, is_pad, padding, all_base64, base64_encode, trim, decode_clean, base64_decode,
}

abbrev AllAlphabet : Str → Type 0
AllAlphabet = All (λ (c : ℕ). is_alphabet c ≡ true)

strip-append_pad :
    (body : Str) (n : ℕ)
    → AllAlphabet body
    → strip (body ++ replicate n b'=') ≡ body ++ replicate n b'='
unfolding strip
strip-append_pad [] zero a = refl
strip-append_pad [] (suc n) a = ap (◌∷◌ b'=') (strip-append_pad [] n a)
strip-append_pad (c ∷ body) n (h, a) = ground (arith, strip-append_pad body n a)

all_base64-alphabet : (body : Str) → AllAlphabet body → all_base64 body ≡ true
unfolding all_base64
all_base64-alphabet [] a = refl
all_base64-alphabet (c ∷ body) (h, a) = rw (all_base64-alphabet body a) (ground arith)

abbrev tests_pad : Option ℕ → Bool
tests_pad none = false
tests_pad (some c) = c == b'='

not_pad :
    (body rest : Str) (i : ℕ)
    → AllAlphabet body
    → i < length body
    → tests_pad (get_elem? (body ++ rest) i) ≡ false
not_pad [] rest i a h = absurd (omega arith)
not_pad (c ∷ body) rest zero (h, a) l = ground arith
not_pad (c ∷ body) rest (suc i) (h, a) l = not_pad body rest i a (omega arith)

-- Past the body every byte is '='.
is_pad_end :
    (body : Str) (n j : ℕ)
    → length body ≤ j
    → j < length body + n
    → tests_pad (get_elem? (body ++ replicate n b'=') j) ≡ true
is_pad_end [] zero j g h = absurd (omega arith)
is_pad_end [] (suc n) zero g h = refl
is_pad_end [] (suc n) (suc j) g h = is_pad_end [] n j (omega arith) (omega arith)
is_pad_end (c ∷ body) n zero g h = absurd (omega arith)
is_pad_end (c ∷ body) n (suc j) g h = is_pad_end body n j (omega arith) (omega arith)

is_pad-tests : (k : ℕ) (s : Str) → is_pad k s ≡ tests_pad (get_elem? s (length s - k))
unfolding is_pad
is_pad-tests k s = ground arith

module _ (body : Str) (n : ℕ) (a : AllAlphabet body) (long : 2 ≤ length body) where
  abbrev padded : Str
  padded = body ++ replicate n b'='

  length-padded : length padded ≡ length body + n
  length-padded =
      omega (arith, length-append body (replicate n b'='), length-replicate {A = ℕ} n b'=')

  is_pad-inside : (k : ℕ) → n < k → k ≤ n + length body → is_pad k padded ≡ false
  is_pad-inside k h l =
      is_pad-tests k padded
      ∙ not_pad body (replicate n b'=') (length padded - k) a (omega (arith, length-padded))

  is_pad-end : (k : ℕ) → 0 < k → k ≤ n → is_pad k padded ≡ true
  is_pad-end k h l =
      is_pad-tests k padded
      ∙ is_pad_end body n (length padded - k) (omega (arith, length-padded))
          (omega (arith, length-padded))

  -- The number of '=' that the decoder counts is the number that the encoder wrote.
  padding_lem : n ≤ 2 → padding padded ≡ n
  unfolding padding
  padding_lem h = elim (dec_lt 0 n) [
    | no none_ ↦ ground (arith, length-padded, is_pad-inside 1, is_pad-inside 2)
    | yes some_ ↦ elim (dec_lt 1 n) [
      | no one ↦ ground (arith, length-padded, is_pad-end 1, is_pad-inside 2)
      | yes two ↦ ground (arith, length-padded, is_pad-end 1, is_pad-end 2)
    ]
  ]

module _ (O : OpenSsl) (L : BlockLaws O) where
  trim-padded : (d : Bytes) (n : ℕ) → trim O n (some (d ++ replicate n 0)) ≡ ok d
  unfolding trim
  trim-padded d n =
      let size : length (d ++ replicate n 0) ≡ length d + n =
        omega (arith, length-append d (replicate n 0), length-replicate {A = ℕ} n 0) in
      let cut : length d + n - n ≡ length d = omega arith in
      let enough : ltb (length d + n) n ≡ false = ground arith in
      rw (size, enough, cut, take-append_left d (replicate n 0))

  decode-stripped : (s : Str) → 0 < length s → strip s ≡ s → base64_decode O s ≡ decode_clean O s
  unfolding base64_decode
  decode-stripped [] h e = absurd (omega arith)
  decode-stripped (c ∷ s) h e = ap (decode_clean O) e

  nonempty : (s : Str) → 0 < length s → is_empty s ≡ false
  nonempty [] h = absurd (omega arith)
  nonempty (c ∷ s) h = refl

  decode_clean-padded :
      (body : Str) (n : ℕ) (d : Bytes)
      → AllAlphabet body
      → 2 ≤ length body
      → n ≤ 2
      → (length body + n) % 4 ≡ 0
      → length body + n < 2 ^ 31
      → O.decode_block (body ++ replicate n b'=') (pos (length body + n))
        ≡ some (d ++ replicate n 0)
      → decode_clean O (body ++ replicate n b'=') ≡ ok d
  unfolding decode_clean
  decode_clean-padded body n d a long few whole fits decoded =
      let full = nonempty (body ++ replicate n b'=') (omega (arith, length-padded body n a long)) in
      let cut : length body + n - n ≡ length body = omega arith in
      rw
        (
          full,
          length-padded body n a long,
          whole,
          padding_lem body n a long few,
          cut,
          take-append_left body (replicate n b'='),
          all_base64-alphabet body a,
          as_int_small (length body + n) fits,
          decoded,
        )
        (trim-padded d n)

  decode-encoded :
      (d : Bytes)
      → IsShort d
      → AreBytes d
      → 0 < length d
      → base64_decode O (O.encode_block d (pos (length d))) ≡ ok d
  decode-encoded d s b h =
      let (body, shape, a, size) = L.encode_shape d s b in
      let n = pad (length d) in
      let decoded : O.decode_block (body ++ replicate n b'=') (pos (length body + n))
          ≡ some (d ++ replicate n 0) =
        ap (λ (t : Str). O.decode_block t (pos (length body + n))) (sym shape)
        ∙ ap (λ (k : ℕ). O.decode_block (O.encode_block d (pos (length d))) (pos k)) size
        ∙ L.decode-encode d s b in
      rw shape (
        decode-stripped (body ++ replicate n b'=')
          (omega (arith, length-append body (replicate n b'='))) (strip-append_pad body n a)
        ∙ decode_clean-padded body n d a (omega arith) (omega arith) (omega arith) (omega arith)
            decoded)

  -- Every byte string whose encoding is shorter than 2 ^ 31 bytes is the decoding of its encoding.
  pub base64_round_trip :
      (d : Bytes) → IsShort d → AreBytes d → base64_decode O (base64_encode O d) ≡ ok d
  unfolding base64_encode base64_decode
  base64_round_trip [] s b = refl
  base64_round_trip (c ∷ d) s b =
      ap (λ (n : ℤ). base64_decode O (O.encode_block (c ∷ d) n))
        (as_int_small (length (c ∷ d)) (omega (arith, s)))
      ∙ decode-encoded (c ∷ d) s b (omega arith)
