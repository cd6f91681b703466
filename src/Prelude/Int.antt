-- ===== src/Prelude/Int.antt =====
-- Signed integers, for Go's `int`, with the library's names.
use Prim.Native.Nat.{ℕ, suc, ◌+◌, ◌-◌, ◌%◌, ◌^◌}
use Prim.Native.String.{String}
use mathlib.Core.Path.{◌≡◌, refl}
use mathlib.Core.Bool.{Bool}
use otel_forge.Prelude.Tests.{ltb, leb, ◌==◌, if◌then◌else◌}
use otel_forge.Prelude.Text.{itoa, ◌⧺◌}

-- `negsuc n` is -(n + 1).
pub data ℤ : Type 0 where
  pos : ℕ → ℤ
  negsuc : ℕ → ℤ

abbrev pub pos_part : ℤ → ℕ
pos_part (pos n) = n
pos_part (negsuc n) = 0

abbrev pub neg_part : ℤ → ℕ
neg_part (pos n) = 0
neg_part (negsuc n) = suc n

abbrev pub leb_ℤ : ℤ → ℤ → Bool
leb_ℤ a b = leb (pos_part a + neg_part b) (pos_part b + neg_part a)

abbrev pub eq_ℤ : ℤ → ℤ → Bool
eq_ℤ a b = (pos_part a + neg_part b) == (pos_part b + neg_part a)

-- a + 1 on a 64-bit `int`: the largest value wraps to the smallest.
abbrev pub suc_ℤ : ℤ → ℤ
suc_ℤ (pos n) = if n == 2 ^ 63 - 1 then negsuc (2 ^ 63 - 1) else pos (n + 1)
suc_ℤ (negsuc n) = if n == 0 then pos 0 else negsuc (n - 1)

-- The 32-bit pattern as a signed number.
abbrev signed32 : ℕ → ℤ
signed32 m = if ltb m (2 ^ 31) then pos m else negsuc (2 ^ 32 - m - 1)

-- `int32(a)`
unfoldable pub to_int32 : ℤ → ℤ
to_int32 (pos n) = signed32 (n % 2 ^ 32)
to_int32 (negsuc n) = signed32 (2 ^ 32 - 1 - n % 2 ^ 32)

-- strconv.Itoa, and `%d`
unfoldable pub itoa_ℤ : ℤ → String
itoa_ℤ (pos n) = itoa n
itoa_ℤ (negsuc n) = "-" ⧺ itoa (n + 1)

to_int32_wraps : to_int32 (negsuc (2 ^ 31)) ≡ pos (2 ^ 31 - 1)
unfolding to_int32
to_int32_wraps = refl

to_int32_small : to_int32 (negsuc 4) ≡ negsuc 4
unfolding to_int32
to_int32_small = refl
