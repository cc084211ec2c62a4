-- ===== src/Integer/LogicLaws.antt =====
-- What the logical executors of core/src/exec_int.cpp leave in each bit of their destination.
use open_power_mac.Prelude.{
  ℕ, zero, suc, ◌+◌, ◌%◌, ◌≤◌, ◌^◌, ◌<◌, ◌≡◌, refl, ◌∙◌, ap, Bool, not, ◌&&◌, ◌||◌, xor, arith,
  bit_and, bit_or, bit_xor, not32, ◌==◌,
}
use open_power_mac.Prelude.BitLaws.{
  bit, bit-and, bit-or, bit-xor, bit-complement, bit-le-one, bit_and-lt_right, bit_or-lt,
  bit_xor-lt,
}
use open_power_mac.Bits.{f_rt, f_ra, f_rb}
use open_power_mac.Cpu.{CpuState}
use open_power_mac.Integer.Logic.{logic, h_and, h_andcx, h_or, h_orc, h_xor, h_eqv, h_nor, h_nand}
use open_power_mac.Integer.RecordLaws.{record_rc-set_gpr, Words}

-- Bit k of the register r.
abbrev pub bit_set : CpuState → ℕ → ℕ → Bool
bit_set s r k = bit (s.gpr r) k == 1

logic-value :
    (expr : ℕ → ℕ → ℕ) (i : ℕ) (s : CpuState)
    → (logic expr i s).gpr (f_ra i) ≡ expr (s.gpr (f_rt i)) (s.gpr (f_rb i))
unfolding logic
logic-value expr i s = (record_rc-set_gpr i (f_ra i) (expr (s.gpr (f_rt i)) (s.gpr (f_rb i))) s).0

-- Bit k of rA after a logical instruction is `op` of the bits k of rS and rB.
abbrev pub Combines : (Bool → Bool → Bool) → (ℕ → CpuState → CpuState) → ℕ → ℕ → CpuState → Type 0
Combines op h i k s = bit_set (h i s) (f_ra i) k ≡ op (bit_set s (f_rt i) k) (bit_set s (f_rb i) k)

-- An expression whose bits are known gives a bitwise instruction.
logic-Combines :
    (op : Bool → Bool → Bool) (expr : ℕ → ℕ → ℕ)
    → ((x y k : ℕ)
        → x < 2 ^ 32
        → y < 2 ^ 32
        → k < 32
        → (bit (expr x y) k == 1) ≡ op (bit x k == 1) (bit y k == 1))
    → (i k : ℕ) (s : CpuState) → Words s
    → k < 32
    → Combines op (logic expr) i k s
logic-Combines op expr h i k s w lt =
    ap (λ (t : ℕ). bit t k == 1) (logic-value expr i s) ∙ h _ _ k (w _) (w _) lt

xor_digit : (x y : ℕ) → x ≤ 1 → y ≤ 1 → ((x + y) % 2 == 1) ≡ xor (x == 1) (y == 1)
unfolding mathlib.Core.Bool.xor
xor_digit zero zero h k = refl
xor_digit zero (suc zero) h k = refl
xor_digit zero (suc (suc y)) h k = ground arith
xor_digit (suc zero) zero h k = refl
xor_digit (suc zero) (suc zero) h k = refl
xor_digit (suc zero) (suc (suc y)) h k = ground arith
xor_digit (suc (suc x)) y h k = ground arith

-- On registers that hold 32-bit words, the eight logical instructions combine their operands bit
-- by bit: and, and with complement, or, or with complement, exclusive or, equivalence, nor and
-- nand.
pub logic_bits :
    (i k : ℕ) (s : CpuState)
    → Words s
    → k < 32
    → Combines (λ a b. a && b) h_and i k s
      × Combines (λ a b. a && not b) h_andcx i k s
      × Combines (λ a b. a || b) h_or i k s
      × Combines (λ a b. a || not b) h_orc i k s
      × Combines (λ a b. xor a b) h_xor i k s
      × Combines (λ a b. not (xor a b)) h_eqv i k s
      × Combines (λ a b. not (a || b)) h_nor i k s
      × Combines (λ a b. not (a && b)) h_nand i k s
unfolding h_and h_andcx h_or h_orc h_xor h_eqv h_nor h_nand
logic_bits i k s w lt = (
  logic-Combines (λ a b. a && b) (λ x y. bit_and x y)
      (λ x y k hx hy lt. rw (bit-and x y k) (ground (arith, bit-le-one x k, bit-le-one y k))) i k s
      w lt,
  logic-Combines (λ a b. a && not b) (λ x y. bit_and x (not32 y))
      (λ x y k hx hy lt.
        rw (bit-and x (not32 y) k, bit-complement 32 y k hy lt)
          (ground (arith, bit-le-one x k, bit-le-one y k)))
      i k s w lt,
  logic-Combines (λ a b. a || b) (λ x y. bit_or x y)
      (λ x y k hx hy lt. rw (bit-or x y k) (ground (arith, bit-le-one x k, bit-le-one y k))) i k s w
      lt,
  logic-Combines (λ a b. a || not b) (λ x y. bit_or x (not32 y))
      (λ x y k hx hy lt.
        rw (bit-or x (not32 y) k, bit-complement 32 y k hy lt)
          (ground (arith, bit-le-one x k, bit-le-one y k)))
      i k s w lt,
  logic-Combines (λ a b. xor a b) (λ x y. bit_xor x y)
      (λ x y k hx hy lt. rw (bit-xor x y k) (xor_digit _ _ (bit-le-one x k) (bit-le-one y k))) i k s
      w lt,
  logic-Combines (λ a b. not (xor a b)) (λ x y. not32 (bit_xor x y))
      (λ x y k hx hy lt.
        rw (bit-complement 32 (bit_xor x y) k (bit_xor-lt 32 x y hx hy) lt, bit-xor x y k)
          (ground (arith, xor_digit _ _ (bit-le-one x k) (bit-le-one y k))))
      i k s w lt,
  logic-Combines (λ a b. not (a || b)) (λ x y. not32 (bit_or x y))
      (λ x y k hx hy lt.
        rw (bit-complement 32 (bit_or x y) k (bit_or-lt 32 x y hx hy) lt, bit-or x y k)
          (ground (arith, bit-le-one x k, bit-le-one y k)))
      i k s w lt,
  logic-Combines (λ a b. not (a && b)) (λ x y. not32 (bit_and x y))
      (λ x y k hx hy lt.
        rw (bit-complement 32 (bit_and x y) k (bit_and-lt_right 32 x y hy) lt, bit-and x y k)
          (ground (arith, bit-le-one x k, bit-le-one y k)))
      i k s w lt,
)
