-- ===== src/Prelude/Words.antt =====
-- Machine words as native numbers: casts by `%`, shifts by `*` and `/`, complement within a width.
use Prim.Native.Nat.{ℕ, ◌+◌, ◌-◌, ◌*◌, ◌/◌, ◌%◌, ◌^◌, bit_and, compare, Ordering}
use mathlib.Core.Bool.{Bool, true, false}

abbrev pub u8 : ℕ → ℕ
u8 n = n % 2 ^ 8

abbrev pub u16 : ℕ → ℕ
u16 n = n % 2 ^ 16

abbrev pub u32 : ℕ → ℕ
u32 n = n % 2 ^ 32

abbrev pub u64 : ℕ → ℕ
u64 n = n % 2 ^ 64

-- `x >> k` on an unsigned word.
infixl 72 ◌>>>◌
abbrev pub ◌>>>◌ : ℕ → ℕ → ℕ
x >>> k = x / 2 ^ k

-- `x << k` on a 32-bit unsigned word: the bits that leave the word are lost.
abbrev pub shl32 : ℕ → ℕ → ℕ
shl32 x k = x * 2 ^ k % 2 ^ 32

-- `~x` on a 32-bit word.
abbrev pub not32 : ℕ → ℕ
not32 x = 2 ^ 32 - 1 - x

-- `a - b` on 32-bit words.
abbrev pub sub32 : ℕ → ℕ → ℕ
sub32 a b = (a + 2 ^ 32 - b) % 2 ^ 32

abbrev pub add32 : ℕ → ℕ → ℕ
add32 a b = (a + b) % 2 ^ 32

-- `(x & m) != 0`.
abbrev pub has : ℕ → ℕ → Bool
has x m = elim (compare (bit_and x m) 0) [ Ordering.eq ↦ false | _ ↦ true ]

abbrev pub flag : Bool → ℕ
flag true = 1
flag false = 0
