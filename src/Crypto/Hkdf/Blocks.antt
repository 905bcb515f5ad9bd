-- ===== src/Crypto/Hkdf/Blocks.antt =====
-- The output of the expand loop against the text of RFC 5869, section 2.3.
use rin_windows.Base.{
  ℕ, zero, suc, ◌+◌, ◌-◌, ◌*◌, ◌%◌, ◌≤◌, ◌<◌, false, [], ◌∷◌, ◌++◌, ◌≡◌, refl, sym, ap, ◌∙◌, ok,
  length, length-append, length-take, take, take_all, take-append_le, take-append_ge, append-nil,
  min, ltb, arith, if◌then◌else◌, dec_lt, lt→ltb, Str, is_empty, replicate,
}
use rin_windows.Crypto.OpenSsl.{OpenSsl, Bytes, MacLaws}
use rin_windows.Crypto.Hkdf.{hmac_sha256, hkdf_extract, expand_loop, hkdf_expand, hkdf_derive_key}

module _ (O : OpenSsl) (L : MacLaws O) where
  -- HMAC-SHA256 as a total function.
  unfoldable pub mac : Bytes → Bytes → Bytes
  mac key message = (L.hmac_total key message).0

  pub hmac_sha256-mac : (key message : Bytes) → hmac_sha256 O key message ≡ ok (mac key message)
  unfolding hmac_sha256 mac
  hmac_sha256-mac key message = rw (L.hmac_total key message).1

  pub length-mac : (key message : Bytes) → length (mac key message) ≡ 32
  unfolding mac
  length-mac key message = (L.hmac_total key message).2

module _ (O : OpenSsl) (L : MacLaws O) (prk info : Bytes) where
  -- T(0) is empty, and T(i + 1) = HMAC(prk, T(i) | info | i + 1).
  pub block : ℕ → Bytes
  block zero = []
  block (suc i) = mac O L prk (block i ++ info ++ suc i ∷ [])

  -- T(1) | T(2) | ... | T(n)
  pub blocks : ℕ → Bytes
  blocks zero = []
  blocks (suc n) = blocks n ++ block (suc n)

  length-block : (i : ℕ) → length (block (suc i)) ≡ 32
  unfolding block
  length-block i = length-mac O L prk _

  length-blocks : (n : ℕ) → length (blocks n) ≡ 32 * n
  unfolding blocks
  length-blocks zero = refl
  length-blocks (suc n) =
      omega (arith, length-append (blocks n) (block (suc n)), length-blocks n, length-block n)

  take-blocks :
      (n i size : ℕ)
      → i < n
      → 32 * i ≤ size
      → size ≤ 32 * i + 32
      → take size (blocks n) ≡ blocks i ++ take (size - 32 * i) (block (suc i))
  unfolding blocks
  take-blocks zero i size h g l = absurd (omega arith)
  take-blocks (suc n) i size h g l = elim (dec_lt i n) [
    | yes lower ↦
        take-append_le size (blocks n) (block (suc n)) (omega (arith, length-blocks n))
        ∙ take-blocks n i size lower g l
    | no top ↦
        let same : i ≡ n = omega arith in
        rw same (
          take-append_ge size (blocks n) (block (suc n)) (omega (arith, length-blocks n))
          ∙ rw (length-blocks n))
  ]

  -- With enough bytes the loop is over, whatever fuel is left.
  expand_loop-done :
      (fuel size : ℕ) (result t : Bytes) (counter : ℕ)
      → size ≤ length result
      → expand_loop O fuel prk info size result t counter ≡ ok result
  unfolding expand_loop
  expand_loop-done zero size result t counter h = refl
  expand_loop-done (suc fuel) size result t counter h =
      let over : ltb (length result) size ≡ false = ground arith in rw (over, expand_loop)

  expand_loop-more :
      (fuel size : ℕ) (result t : Bytes) (counter : ℕ)
      → length result < size
      → let t' = mac O L prk (t ++ info ++ counter ∷ []) in
        expand_loop O (suc fuel) prk info size result t counter
        ≡ expand_loop O fuel prk info size
            (result ++ take (min (length t') (size - length result)) t')
            t'
            ((counter + 1) % 256)
  unfolding expand_loop
  expand_loop-more fuel size result t counter h =
      rw (lt→ltb _ _ h, expand_loop) (rw (hmac_sha256-mac O L prk (t ++ info ++ counter ∷ [])))

  -- One round from full blocks: a full block more, or the last part of one.
  expand_loop-round :
      (fuel size i : ℕ)
      → 32 * i < size
      → expand_loop O (suc fuel) prk info size (blocks i) (block i) (suc i)
        ≡ expand_loop O fuel prk info size
            (blocks i ++ take (min 32 (size - 32 * i)) (block (suc i)))
            (block (suc i))
            ((suc i + 1) % 256)
  unfolding block
  expand_loop-round fuel size i h =
      expand_loop-more fuel size (blocks i) (block i) (suc i) (omega (arith, length-blocks i))
      ∙ rw (length-mac O L prk (block i ++ info ++ suc i ∷ []), length-blocks i)

  -- The first whole blocks.
  take-blocks_whole : (n i size : ℕ) → i ≤ n → size ≡ 32 * i → take size (blocks n) ≡ blocks i
  take-blocks_whole n i size h e = elim (dec_lt i n) [
    | yes lower ↦
        let none_left : size - 32 * i ≡ 0 = omega arith in
        take-blocks n i size lower (omega arith) (omega arith)
        ∙ rw none_left (append-nil (blocks i))
    | no top ↦
        let same : n ≡ i = omega arith in
        rw same (take_all size (blocks i) (omega (arith, length-blocks i)))
  ]

  expand_loop-last :
      (fuel n size i : ℕ)
      → i < n
      → 32 * i < size
      → size ≤ 32 * i + 32
      → expand_loop O (suc fuel) prk info size (blocks i) (block i) (suc i)
        ≡ ok (take size (blocks n))
  expand_loop-last fuel n size i h g l =
      let part : min 32 (size - 32 * i) ≡ size - 32 * i = omega arith in
      let cut = length-take (size - 32 * i) (block (suc i)) in
      let size_ok : size ≤ length (blocks i ++ take (size - 32 * i) (block (suc i))) = omega (
        arith,
        length-append (blocks i) (take (size - 32 * i) (block (suc i))),
        length-blocks i,
        length-block i,
        cut,
      ) in
      expand_loop-round fuel size i g
      ∙ rw part (
          expand_loop-done fuel size _ _ _ size_ok
          ∙ ap ok (sym (take-blocks n i size h (omega arith) l)))

  blocks-suc : (i : ℕ) → blocks i ++ block (suc i) ≡ blocks (suc i)
  unfolding blocks
  blocks-suc i = refl

  expand_loop-blocks :
      (fuel n size i : ℕ)
      → n ≤ 255
      → i ≤ n
      → 32 * i ≤ size
      → size ≤ 32 * n
      → size - 32 * i ≤ fuel
      → expand_loop O fuel prk info size (blocks i) (block i) ((i + 1) % 256)
        ≡ ok (take size (blocks n))
  expand_loop-blocks zero n size i small le g l enough =
      expand_loop-done zero size _ _ _ (omega (arith, length-blocks i))
      ∙ ap ok (sym (take-blocks_whole n i size le (omega arith)))
  expand_loop-blocks (suc fuel) n size i small le g l enough = elim (dec_lt (32 * i) size) [
    | no full ↦
        expand_loop-done (suc fuel) size _ _ _ (omega (arith, length-blocks i))
        ∙ ap ok (sym (take-blocks_whole n i size le (omega arith)))
    | yes more ↦
        let counter : (i + 1) % 256 ≡ suc i = omega arith in
        rw counter (elim (dec_lt (32 * i + 32) size) [
          | no last ↦ expand_loop-last fuel n size i (omega arith) more (omega arith)
          | yes go ↦
              let whole : min 32 (size - 32 * i) ≡ 32 = omega arith in
              expand_loop-round fuel size i more
              ∙ rw (whole, take_all 32 (block (suc i)) (omega (arith, length-block i)))
                  (rw (blocks-suc i) (
                    expand_loop-blocks fuel n size (suc i) small (omega arith) (omega arith) l
                      (omega arith)))
        ])
  ]

  -- For at most 255 blocks, the loop returns the first `size` bytes of the blocks of RFC 5869.
  pub hkdf_expand-blocks :
      (size n : ℕ)
      → n ≤ 255
      → size ≤ 32 * n
      → hkdf_expand O prk info size ≡ ok (take size (blocks n))
  unfolding hkdf_expand
  hkdf_expand-blocks size n small h =
      unfold block blocks in
      expand_loop-blocks size n size 0 small (omega arith) (omega arith) h (omega arith)

-- The key that hkdf_derive_key returns: T(1) of the extracted key.
module _ (O : OpenSsl) (L : MacLaws O) (ikm salt : Bytes) (info : Str) where
  abbrev pub extracted : Bytes
  extracted = mac O L (if is_empty salt then replicate 32 0 else salt) ikm

  pub hkdf_derive_key_lem :
      hkdf_derive_key O ikm salt info ≡ ok (mac O L extracted (info ++ 1 ∷ []))
  unfolding hkdf_derive_key hkdf_extract blocks block
  hkdf_derive_key_lem =
      rw (hmac_sha256-mac O L (if is_empty salt then replicate 32 0 else salt) ikm) (
        hkdf_expand-blocks O L extracted info 32 1 (omega arith) (omega arith)
        ∙ ap ok (take_all 32 _ (omega (arith, length-mac O L extracted (info ++ 1 ∷ [])))))
