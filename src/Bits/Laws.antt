-- ===== src/Bits/Laws.antt =====
-- What the field helpers of core/include/opm/bits.hpp compute, by plain arithmetic.
use open_power_mac.Prelude.{
  ℕ, ◌+◌, ◌-◌, ◌/◌, ◌%◌, ◌^◌, ◌≤◌, ◌<◌, ◌≡◌, refl, ◌∙◌, arith, max, min, if◌then◌else◌, leb, ◌==◌,
  not32, Bool, true, false, ◌&&◌, ◌||◌, flag, Bool-cases, inl, inr,
}
use open_power_mac.Prelude.BitLaws.{
  bit, bit_and_low, bit-and, bit-or, bit-shr, bit-complement, bit_above, bit_of_zero,
  bit_and-lt_right, bit_or-lt,
}
use native.Mathlib.Nat.{div-le_self}
use open_power_mac.Bits.Numbering.{ppcbits, ppcbit, ppcmask, sar32, sext16, sext26, sext14, sext5}

-- A field is a quotient and a remainder.
pub ppcbits_lem : (w hi lo : ℕ) → lo ≤ 31 → ppcbits w hi lo ≡ w / 2 ^ (31 - lo) % 2 ^ (lo + 1 - hi)
unfolding ppcbits
ppcbits_lem w hi lo l = elim (Bool-cases (leb 32 (lo + 1 - hi))) [
  | inl wide ↦
      let full : lo + 1 - hi ≡ 32 = ground arith in rw full (bit_and_low 32 (w / 2 ^ (31 - lo)))
  | inr narrow ↦ rw narrow (bit_and_low (lo + 1 - hi) (w / 2 ^ (31 - lo)))
]

pub ppcbit_lem : (w b : ℕ) → ppcbit w b ≡ bit w (31 - b)
unfolding ppcbit bit
ppcbit_lem w b = bit_and_low 1 (w / 2 ^ (31 - b))

-- The bits of a word of ones that was shifted right.
min_flags : (a b : Bool) → min (flag a) (flag b) ≡ flag (a && b)
min_flags true true = refl
min_flags true false = refl
min_flags false true = refl
min_flags false false = refl

max_flags : (a b : Bool) → max (flag a) (flag b) ≡ flag (a || b)
max_flags true true = refl
max_flags true false = refl
max_flags false true = refl
max_flags false false = refl

ones_bit : (n k : ℕ) → bit (0xffff_ffff / 2 ^ n) k ≡ flag (leb (n + k) 31)
ones_bit n k = elim (Bool-cases (leb (n + k) 31)) [
  | inl low ↦
      rw (low, bit-shr 0xffff_ffff n k)
        (bit-complement 32 0 (n + k) (omega arith) (ground arith) ∙ rw bit_of_zero (omega arith))
  | inr high ↦
      rw (high, bit-shr 0xffff_ffff n k)
        (bit_above 32 0xffff_ffff (n + k) (omega arith) (ground arith))
]

ones-lt : (n : ℕ) → 0xffff_ffff / 2 ^ n < 2 ^ 32
ones-lt n = omega (arith, div-le_self 0xffff_ffff (2 ^ n))

from_start : (mb p : ℕ) → p ≤ 31 → bit (0xffff_ffff / 2 ^ mb) (31 - p) ≡ flag (leb mb p)
from_start mb p h = ones_bit mb (31 - p) ∙ ground arith

to_end :
    (me p : ℕ)
    → me ≤ 31
    → p ≤ 31
    → bit (if me == 31 then 0xffff_ffff else not32 (0xffff_ffff / 2 ^ (me + 1))) (31 - p)
      ≡ flag (leb p me)
to_end me p he hp = elim (Bool-cases (me == 31)) [
  | inl last ↦ rw last (ones_bit 0 (31 - p) ∙ ground arith)
  | inr inner ↦
      rw
        (
          inner,
          bit-complement 32 (0xffff_ffff / 2 ^ (me + 1)) (31 - p) (ones-lt (me + 1)) (omega arith),
          ones_bit (me + 1) (31 - p),
        )
        (ground arith)
]

-- Which bits `ppcmask` sets, the wrapping case included.
abbrev pub in_mask : ℕ → ℕ → ℕ → Bool
in_mask mb me p = if leb mb me then leb mb p && leb p me else leb mb p || leb p me

-- A rotate mask has a one bit exactly from MB to ME, around the end of the word where MB is after ME.
pub ppcmask_bits :
    (mb me p : ℕ) → mb ≤ 31 → me ≤ 31 → p ≤ 31 → ppcbit (ppcmask mb me) p ≡ flag (in_mask mb me p)
unfolding ppcmask
ppcmask_bits mb me p hb he hp = elim (Bool-cases (leb mb me)) [
  | inl straight ↦
      rw (straight, ppcbit_lem, bit-and, from_start mb p hp, to_end me p he hp) (min_flags _ _)
  | inr wrapped ↦
      rw (wrapped, ppcbit_lem, bit-or, from_start mb p hp, to_end me p he hp) (max_flags _ _)
]

-- The value that the low `n` bits of a word stand for in two's complement, as a 32-bit pattern.
abbrev pub sign_extended : ℕ → ℕ → ℕ
sign_extended n v =
    let low = v % 2 ^ n in if leb (2 ^ (n - 1)) low then low + (2 ^ 32 - 2 ^ n) else low

-- The sign extensions of the fields of 16, 26, 14 and 5 bits keep the value that the low bits stand for in
-- two's complement, whatever stands above them.
pub sext_lem :
    (v : ℕ)
    → (sext16 v ≡ sign_extended 16 v)
      × (sext26 v ≡ sign_extended 26 v)
      × (sext14 v ≡ sign_extended 14 v)
      × (sext5 v ≡ sign_extended 5 v)
unfolding sext16 sext26 sext14 sext5 sar32
sext_lem v = (ground (arith, bit_and_low 16 v), ground arith, ground arith, ground arith)

mask_tail-lt :
    (me : ℕ) → (if me == 31 then 0xffff_ffff else not32 (0xffff_ffff / 2 ^ (me + 1))) < 2 ^ 32
mask_tail-lt me = ground arith

pub ppcmask-lt : (mb me : ℕ) → ppcmask mb me < 2 ^ 32
unfolding ppcmask
ppcmask-lt mb me = elim (Bool-cases (leb mb me)) [
  | inl straight ↦ rw straight (bit_and-lt_right 32 (0xffff_ffff / 2 ^ mb) _ (mask_tail-lt me))
  | inr wrapped ↦ rw wrapped (bit_or-lt 32 _ _ (ones-lt mb) (mask_tail-lt me))
]
