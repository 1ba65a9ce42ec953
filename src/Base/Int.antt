-- ===== src/Base/Int.antt =====
-- C's signed integers: ℤ over the native numbers, and the `long`, `int` and `unsigned int` casts.
use Prim.Native.Nat.{ℕ, suc, ◌+◌, ◌-◌, ◌*◌, ◌%◌, ◌^◌, ◌≤◌, ◌<◌}
use mathlib.Core.Bool.{Bool}
use linux_device_driver.Base.Tests.{ltb, leb, ◌==◌, if◌then◌else◌}

-- `negsuc n` is -(n + 1).
pub data ℤ : Type 0 where
  pos : ℕ → ℤ
  negsuc : ℕ → ℤ

abbrev pub pos_part : ℤ → ℕ
pos_part (pos n) = n
pos_part (negsuc n) = 0

abbrev pub neg_part : ℤ → ℕ
neg_part (pos n) = 0
neg_part (negsuc n) = suc n

-- a - b, as an integer.
abbrev pub sub_ℕ : ℕ → ℕ → ℤ
sub_ℕ a b = if leb b a then pos (a - b) else negsuc (b - a - 1)

infixl 65 ◌+ℤ◌ ◌-ℤ◌
abbrev pub ◌+ℤ◌ : ℤ → ℤ → ℤ
a +ℤ b = sub_ℕ (pos_part a + pos_part b) (neg_part a + neg_part b)

abbrev pub ◌-ℤ◌ : ℤ → ℤ → ℤ
a -ℤ b = sub_ℕ (pos_part a + neg_part b) (neg_part a + pos_part b)

infix 50 ◌≤ℤ◌ ◌<ℤ◌
abbrev pub ◌≤ℤ◌ : ℤ → ℤ → Type 0
a ≤ℤ b = pos_part a + neg_part b ≤ pos_part b + neg_part a

abbrev pub ◌<ℤ◌ : ℤ → ℤ → Type 0
a <ℤ b = pos_part a + neg_part b < pos_part b + neg_part a

abbrev pub ltb_ℤ : ℤ → ℤ → Bool
ltb_ℤ a b = ltb (pos_part a + neg_part b) (pos_part b + neg_part a)

-- The bit pattern of an integer in a word with `m` values: the cast to an unsigned type.
abbrev pub to_word : ℕ → ℤ → ℕ
to_word m (pos n) = n % m
to_word m (negsuc n) = m - 1 - n % m

-- The integer that a pattern below `2 * half` stands for: the cast to a signed type.
abbrev pub of_word : ℕ → ℕ → ℤ
of_word half w = if ltb w half then pos w else negsuc (2 * half - w - 1)

-- `(unsigned int) z`
abbrev pub to_u32 : ℤ → ℕ
to_u32 z = to_word (2 ^ 32) z

-- A 64-bit signed result, wrapped as the kernel is built (-fno-strict-overflow).
abbrev pub wrap_s64 : ℤ → ℤ
wrap_s64 z = of_word (2 ^ 63) (to_word (2 ^ 64) z)

-- A 32-bit signed result, wrapped.
abbrev pub wrap_s32 : ℤ → ℤ
wrap_s32 z = of_word (2 ^ 31) (to_word (2 ^ 32) z)

abbrev pub leb_ℤ : ℤ → ℤ → Bool
leb_ℤ a b = leb (pos_part a + neg_part b) (pos_part b + neg_part a)

abbrev pub eqb_ℤ : ℤ → ℤ → Bool
eqb_ℤ a b = (pos_part a + neg_part b) == (pos_part b + neg_part a)

-- `int` arithmetic
abbrev pub add_s32 : ℤ → ℤ → ℤ
add_s32 a b = wrap_s32 (a +ℤ b)

abbrev pub sub_s32 : ℤ → ℤ → ℤ
sub_s32 a b = wrap_s32 (a -ℤ b)
