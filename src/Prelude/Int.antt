-- ===== src/Prelude/Int.antt =====
-- Signed integers over the native numbers, for the clocks and counters of type MTC_S64 and MTC_S32.
use Prim.Native.Nat.{ℕ, suc, ◌+◌, ◌-◌, ◌%◌, ◌^◌, ◌<◌}
use mathlib.Core.Path.{◌≡◌}
use mathlib.Core.Logic.{◌↔◌}
use mathlib.Core.Bool.{Bool, true}
use native.Mathlib.Omega.{arith}
use xha.Prelude.Tests.{ltb, leb, if◌then◌else◌}

-- `negsuc n` is -(n + 1).
pub data ℤ : Type 0 where
  pos : ℕ → ℤ
  negsuc : ℕ → ℤ

abbrev pub pos_part : ℤ → ℕ
pos_part (pos n) = n
pos_part (negsuc n) = 0

abbrev pub neg_part : ℤ → ℕ
neg_part (pos n) = 0
neg_part (negsuc n) = suc n

-- a - b, as an integer.
abbrev pub sub_ℕ : ℕ → ℕ → ℤ
sub_ℕ a b = if leb b a then pos (a - b) else negsuc (b - a - 1)

infixl 65 ◌+ℤ◌ ◌-ℤ◌
infix 50 ◌<ℤ◌
unfoldable pub ◌+ℤ◌ : ℤ → ℤ → ℤ
a +ℤ b = sub_ℕ (pos_part a + pos_part b) (neg_part a + neg_part b)

unfoldable pub ◌-ℤ◌ : ℤ → ℤ → ℤ
a -ℤ b = sub_ℕ (pos_part a + neg_part b) (neg_part a + pos_part b)

abbrev pub ◌<ℤ◌ : ℤ → ℤ → Type 0
a <ℤ b = pos_part a + neg_part b < pos_part b + neg_part a

abbrev pub ltb_ℤ : ℤ → ℤ → Bool
ltb_ℤ a b = ltb (pos_part a + neg_part b) (pos_part b + neg_part a)

abbrev pub leb_ℤ : ℤ → ℤ → Bool
leb_ℤ a b = leb (pos_part a + neg_part b) (pos_part b + neg_part a)

pub ltb_ℤ_iff : (a b : ℤ) → (ltb_ℤ a b ≡ true) ↔ (a <ℤ b)
ltb_ℤ_iff a b = ground arith

-- The difference of two instants is less than a limit when the later is less than the sum.
pub -ℤ-lt_iff : (a b c : ℤ) → (ltb_ℤ (a -ℤ b) c ≡ true) ↔ (a <ℤ c +ℤ b)
unfolding ◌+ℤ◌ ◌-ℤ◌
-ℤ-lt_iff a b c = ground arith

-- The value as it is kept in a signed word of 32 bits.
abbrev pub to_s32 : ℕ → ℤ
to_s32 w = if ltb w (2 ^ 31) then pos w else negsuc (2 ^ 32 - w - 1)

unfoldable pub s32 : ℤ → ℤ
s32 (pos n) = to_s32 (n % 2 ^ 32)
s32 (negsuc n) = to_s32 (2 ^ 32 - 1 - n % 2 ^ 32)

pub s32_small : (n : ℕ) → n < 2 ^ 31 → s32 (pos n) ≡ pos n
unfolding s32
s32_small n h = ground arith

-- `_max` and `_min` of include/mtctypes.h.
abbrev pub max_ℤ : ℤ → ℤ → ℤ
max_ℤ x y = if ltb_ℤ y x then x else y

abbrev pub min_ℤ : ℤ → ℤ → ℤ
min_ℤ x y = if ltb_ℤ x y then x else y
