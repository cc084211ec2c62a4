-- ===== src/Prelude/Int.antt =====
-- Signed integers over the native numbers, under the library's names, and the two's complement
-- reading of a 32-bit word.
use Prim.Native.Nat.{ℕ, suc, ◌+◌, ◌-◌, ◌*◌, ◌/◌, ◌%◌, ◌^◌}
use mathlib.Core.Bool.{Bool}
use open_power_mac.Prelude.Tests.{ltb, leb, ◌==◌, if◌then◌else◌}

-- `negsuc n` is -(n + 1).
pub data ℤ : Type 0 where
  pos : ℕ → ℤ
  negsuc : ℕ → ℤ

abbrev pub pos_part : ℤ → ℕ
pos_part (pos n) = n
pos_part (negsuc n) = 0

abbrev pub neg_part : ℤ → ℕ
neg_part (pos n) = 0
neg_part (negsuc n) = suc n

-- a - b, as an integer.
abbrev pub sub_ℕ : ℕ → ℕ → ℤ
sub_ℕ a b = if leb b a then pos (a - b) else negsuc (b - a - 1)

infixl 65 ◌+ℤ◌
infixl 70 ◌*ℤ◌
unfoldable pub ◌+ℤ◌ : ℤ → ℤ → ℤ
a +ℤ b = sub_ℕ (pos_part a + pos_part b) (neg_part a + neg_part b)

unfoldable pub ◌*ℤ◌ : ℤ → ℤ → ℤ
a *ℤ b =
    sub_ℕ (pos_part a * pos_part b + neg_part a * neg_part b)
      (pos_part a * neg_part b + neg_part a * pos_part b)

abbrev pub ltb_ℤ : ℤ → ℤ → Bool
ltb_ℤ a b = ltb (pos_part a + neg_part b) (pos_part b + neg_part a)

abbrev pub eqb_ℤ : ℤ → ℤ → Bool
eqb_ℤ a b = pos_part a + neg_part b == pos_part b + neg_part a

-- C's division truncates towards zero; the divisor is not zero where it is used.
abbrev pub magnitude : ℤ → ℕ
magnitude a = pos_part a + neg_part a

unfoldable pub trunc_div : ℤ → ℤ → ℤ
trunc_div a b =
    let q = magnitude a / magnitude b in
    if leb (pos_part a * neg_part b + neg_part a * pos_part b) 0 then pos q else sub_ℕ 0 q

-- `(i32)w`: the number that a 32-bit pattern stands for; and the cast back, from any width.
abbrev pub signed32 : ℕ → ℤ
signed32 w = if ltb w (2 ^ 31) then pos w else negsuc (2 ^ 32 - 1 - w)

abbrev pub wrap32 : ℤ → ℕ
wrap32 (pos n) = n % 2 ^ 32
wrap32 (negsuc n) = 2 ^ 32 - 1 - n % 2 ^ 32
