-- ===== src/Prelude/Int.antt =====
-- Signed integers over the native numbers, and the range of `std::int64_t`.
use Prim.Native.Nat.{ℕ, suc, ◌+◌, ◌-◌, ◌^◌, ◌<◌}
use mathlib.Core.Path.{◌≡◌, ap}
use mathlib.Core.Bool.{Bool, true, false}
use native.Mathlib.Omega.{arith}
use redix.Prelude.Tests.{ltb, leb, if◌then◌else◌}

-- `negsuc n` is -(n + 1).
pub data ℤ : Type 0 where
  pos : ℕ → ℤ
  negsuc : ℕ → ℤ

abbrev pub pos_part : ℤ → ℕ
pos_part (pos n) = n
pos_part (negsuc n) = 0

abbrev pub neg_part : ℤ → ℕ
neg_part (pos n) = 0
neg_part (negsuc n) = suc n

-- a - b, as an integer.
abbrev pub sub_ℕ : ℕ → ℕ → ℤ
sub_ℕ a b = if leb b a then pos (a - b) else negsuc (b - a - 1)

infixl 65 ◌+ℤ◌ ◌-ℤ◌
unfoldable pub ◌+ℤ◌ : ℤ → ℤ → ℤ
a +ℤ b = sub_ℕ (pos_part a + pos_part b) (neg_part a + neg_part b)

unfoldable pub ◌-ℤ◌ : ℤ → ℤ → ℤ
a -ℤ b = sub_ℕ (pos_part a + neg_part b) (neg_part a + pos_part b)

abbrev pub ltb_ℤ : ℤ → ℤ → Bool
ltb_ℤ a b = ltb (pos_part a + neg_part b) (pos_part b + neg_part a)

abbrev pub leb_ℤ : ℤ → ℤ → Bool
leb_ℤ a b = leb (pos_part a + neg_part b) (pos_part b + neg_part a)

pub ltb_ℤ_irrefl : (a : ℤ) → ltb_ℤ a a ≡ false
ltb_ℤ_irrefl a = ground arith

pub ltb_ℤ_trans : (a b c : ℤ) → ltb_ℤ a b ≡ true → ltb_ℤ b c ≡ true → ltb_ℤ a c ≡ true
ltb_ℤ_trans a b c h k = ground arith

pub ltb_ℤ_connex : (a b : ℤ) → ltb_ℤ a b ≡ false → ltb_ℤ b a ≡ false → a ≡ b
ltb_ℤ_connex (pos m) (pos n) h k = ap (λ x. pos x) (ground arith)
ltb_ℤ_connex (pos m) (negsuc n) h k = absurd (ground arith)
ltb_ℤ_connex (negsuc m) (pos n) h k = absurd (ground arith)
ltb_ℤ_connex (negsuc m) (negsuc n) h k = ap (λ x. negsuc x) (ground arith)

-- INT64_MAX is `i64_bound - 1`, INT64_MIN is `-i64_bound`.
abbrev pub i64_bound : ℕ
i64_bound = 2 ^ 63

abbrev pub IsInt64 : ℤ → Type 0
IsInt64 (pos n) = n < i64_bound
IsInt64 (negsuc n) = n < i64_bound

-- Whether a value is representable as `std::int64_t`.
abbrev pub fits_i64 : ℤ → Bool
fits_i64 (pos n) = ltb n i64_bound
fits_i64 (negsuc n) = ltb n i64_bound

pub fits_i64→IsInt64 : (z : ℤ) → fits_i64 z ≡ true → IsInt64 z
fits_i64→IsInt64 (pos n) h = ground arith
fits_i64→IsInt64 (negsuc n) h = ground arith

pub IsInt64→fits_i64 : (z : ℤ) → IsInt64 z → fits_i64 z ≡ true
IsInt64→fits_i64 (pos n) h = ground arith
IsInt64→fits_i64 (negsuc n) h = ground arith
