-- ===== src/Base/Integers.antt =====
-- Signed integers over the native numbers, for `int` and `int64_t`.
use Prim.Native.Nat.{ℕ, suc, ◌+◌, ◌-◌, ◌%◌, ◌^◌, ◌≤◌, ◌<◌}
use mathlib.Core.Path.{◌≡◌, ap}
use mathlib.Core.Bool.{Bool, ◌&&◌}
use native.Mathlib.Omega.{arith}
use rin_windows.Base.Tests.{leb, ltb, ◌==◌, if◌then◌else◌}

-- `negsuc n` is -(n + 1).
pub data ℤ : Type 0 where
  pos : ℕ → ℤ
  negsuc : ℕ → ℤ

abbrev pub pos_part : ℤ → ℕ
pos_part (pos n) = n
pos_part (negsuc n) = 0

abbrev pub neg_part : ℤ → ℕ
neg_part (pos n) = 0
neg_part (negsuc n) = suc n

-- a - b, as an integer.
abbrev pub sub_ℕ : ℕ → ℕ → ℤ
sub_ℕ a b = if leb b a then pos (a - b) else negsuc (b - a - 1)

infixl 65 ◌+ℤ◌
abbrev pub ◌+ℤ◌ : ℤ → ℤ → ℤ
a +ℤ b = sub_ℕ (pos_part a + pos_part b) (neg_part a + neg_part b)

abbrev pub eqb_ℤ : ℤ → ℤ → Bool
eqb_ℤ a b = (pos_part a == pos_part b) && (neg_part a == neg_part b)

pub eqb_ℤ_self : (a : ℤ) → eqb_ℤ a a ≡ Bool.true
eqb_ℤ_self a = ground arith

pub eqb_ℤ_eq : (a b : ℤ) → eqb_ℤ a b ≡ Bool.true → a ≡ b
eqb_ℤ_eq (pos a) (pos b) h = let e : a ≡ b = ground arith in ap pos e
eqb_ℤ_eq (pos a) (negsuc b) h = absurd (ground arith)
eqb_ℤ_eq (negsuc a) (pos b) h = absurd (ground arith)
eqb_ℤ_eq (negsuc a) (negsuc b) h = let e : a ≡ b = ground arith in ap negsuc e

-- static_cast<int>(n) of a size_t
unfoldable pub as_int : ℕ → ℤ
as_int n = let low = n % 2 ^ 32 in if ltb low (2 ^ 31) then pos low else negsuc (2 ^ 32 - 1 - low)

pub as_int_small : (n : ℕ) → n < 2 ^ 31 → as_int n ≡ pos n
unfolding as_int
as_int_small n h = ground arith

-- -2 ^ w ≤ a < 2 ^ w: the range of a signed word of w + 1 bits.
abbrev pub Fits : ℕ → ℤ → Type 0
Fits w a = (pos_part a < 2 ^ w) × (neg_part a ≤ 2 ^ w)

-- The low w + 1 bits of an integer, as a signed word: what a narrowing cast keeps.
abbrev pub IsInt : ℤ → Type 0
IsInt = Fits 31

abbrev pub IsInt64 : ℤ → Type 0
IsInt64 = Fits 63
