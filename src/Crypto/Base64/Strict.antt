-- ===== src/Crypto/Base64/Strict.antt =====
-- What the decoder lets through, whatever EVP_DecodeBlock accepts.
use rin_windows.Base.{
  ℕ, zero, suc, ◌-◌, ◌%◌, ◌≤◌, ◌<◌, Str, is_empty, true, false, some, [], ◌∷◌, ◌++◌, ◌≡◌, refl, sym,
  ◌⊎◌, inl, inr, ap, ◌∙◌, ok, length, get_elem?, take, drop, take-append-drop, drop_all, replicate,
  arith, Bool-cases,
}
use rin_windows.Crypto.OpenSsl.{OpenSsl, Bytes}
use rin_windows.Crypto.Base64.{
  is_base64_char, strip, is_pad, padding, all_base64, decode_clean, base64_decode,
}

drop-get_elem? : (s : Str) (i c : ℕ) → get_elem? s i ≡ some c → drop i s ≡ c ∷ drop (suc i) s
drop-get_elem? [] i c h = cc
drop-get_elem? (x ∷ s) zero c h = ground arith
drop-get_elem? (x ∷ s) (suc i) c h = drop-get_elem? s i c h

inside_take :
    (s : Str) (m i c : ℕ)
    → all_base64 (take m s) ≡ true
    → i < m
    → get_elem? s i ≡ some c
    → is_base64_char c ≡ true
unfolding all_base64
inside_take [] m i c a h e = cc
inside_take (x ∷ s) zero i c a h e = absurd (omega arith)
inside_take (x ∷ s) (suc m) zero c a h e = ground arith
inside_take (x ∷ s) (suc m) (suc i) c a h e = inside_take s m i c (ground arith) (omega arith) e

-- A byte counted as padding is '=', which is not in the alphabet.
is_pad-get_elem? : (k : ℕ) (s : Str) → is_pad k s ≡ true → get_elem? s (length s - k) ≡ some b'='
unfolding is_pad
is_pad-get_elem? k s h = ground (arith, h)

last_pad : (s : Str) → 1 ≤ length s → is_pad 1 s ≡ true → drop (length s - 1) s ≡ replicate 1 b'='
last_pad s h e =
    let next : suc (length s - 1) ≡ length s = omega arith in
    drop-get_elem? s _ _ (is_pad-get_elem? 1 s e)
    ∙ ap (◌∷◌ b'=') (ap (λ (k : ℕ). drop k s) next ∙ drop_all (length s) s (omega arith))

last_two_pads :
    (s : Str)
    → 2 ≤ length s
    → is_pad 1 s ≡ true
    → is_pad 2 s ≡ true
    → drop (length s - 2) s ≡ replicate 2 b'='
last_two_pads s h e g =
    let next : suc (length s - 2) ≡ length s - 1 = omega arith in
    drop-get_elem? s _ _ (is_pad-get_elem? 2 s g)
    ∙ ap (◌∷◌ b'=') (ap (λ (k : ℕ). drop k s) next ∙ last_pad s (omega arith) e)

-- A lone '=' in the last place but one is caught by the alphabet check.
lone_pad : (s : Str) → 2 ≤ length s → is_pad 2 s ≡ true → all_base64 (take (length s - 1) s) ≡ false
unfolding is_base64_char
lone_pad s h g = elim (Bool-cases (all_base64 (take (length s - 1) s))) [
  | inr e ↦ e
  | inl e ↦
      cc (inside_take s (length s - 1) (length s - 2) b'=' e (omega arith) (is_pad-get_elem? 2 s g))
]

padding_cases :
    (s : Str)
    → 2 ≤ length s
    → (padding s ≡ 0)
      ⊎ ((padding s ≡ 1) × (is_pad 1 s ≡ true))
      ⊎ ((padding s ≡ 1) × (is_pad 2 s ≡ true))
      ⊎ ((padding s ≡ 2) × (is_pad 1 s ≡ true) × (is_pad 2 s ≡ true))
unfolding padding
padding_cases s h = elim (Bool-cases (is_pad 1 s)) [
  | inl one ↦ elim (Bool-cases (is_pad 2 s)) [
    | inl two ↦ inr (inr (inr (ground arith, one, two)))
    | inr two ↦ inr (inl (ground arith, one))
  ]
  | inr one ↦ elim (Bool-cases (is_pad 2 s)) [
    | inl two ↦ inr (inr (inl (ground arith, two)))
    | inr two ↦ inl (ground arith)
  ]
]

pads_end :
    (s : Str)
    → 2 ≤ length s
    → all_base64 (take (length s - padding s) s) ≡ true
    → (padding s ≤ 2) × (drop (length s - padding s) s ≡ replicate (padding s) b'=')
pads_end s h a = elim (padding_cases s h) [
  | inl e ↦ rw e (omega arith, drop_all (length s - 0) s (omega arith))
  | inr (inl (e, one)) ↦ rw e (omega arith, last_pad s (omega arith) one)
  | inr (inr (inl (e, two))) ↦
      absurd (cc (lone_pad s h two, ap (λ (k : ℕ). all_base64 (take (length s - k) s)) e))
  | inr (inr (inr (e, one, two))) ↦ rw e (omega arith, last_two_pads s h one two)
]

-- A text is well formed: whole groups of four, the alphabet, and at most two '=' at the end.
abbrev pub IsBase64Text : Str → Type 0
IsBase64Text clean =
    (length clean % 4 ≡ 0)
    × (body : Str) × (n : ℕ) × (n ≤ 2)
    × (clean ≡ body ++ replicate n b'=')
    × (all_base64 body ≡ true)

module _ (O : OpenSsl) where
  decode_clean-IsBase64Text : (s : Str) (d : Bytes) → decode_clean O s ≡ ok d → IsBase64Text s
  unfolding decode_clean
  decode_clean-IsBase64Text s d h =
      let whole : length s % 4 ≡ 0 = ground arith in
      let body_ok : all_base64 (take (length s - padding s) s) ≡ true = ground arith in
      let nonempty : is_empty s ≡ false = ground arith in
      let (few, ending) = pads_end s (long s nonempty whole) body_ok in
      (
        whole,
        take (length s - padding s) s,
        padding s,
        few,
        sym (take-append-drop (length s - padding s) s)
            ∙ ap (λ (t : Str). take (length s - padding s) s ++ t) ending,
        body_ok,
      )
    where
      long : (t : Str) → is_empty t ≡ false → length t % 4 ≡ 0 → 2 ≤ length t
      long [] e w = cc
      long (c ∷ t) e w = omega arith

  -- Whatever EVP_DecodeBlock tolerates, a text that base64_decode accepts is, without its spaces
  -- and line ends, whole groups of four alphabet bytes with at most two '=' at the very end.
  pub base64_decode_strict :
      (s : Str) (d : Bytes) → base64_decode O s ≡ ok d → IsBase64Text (strip s)
  unfolding base64_decode
  base64_decode_strict [] d h = unfold strip all_base64 in (refl, [], 0, omega arith, refl, refl)
  base64_decode_strict (c ∷ s) d h = decode_clean-IsBase64Text (strip (c ∷ s)) d h
