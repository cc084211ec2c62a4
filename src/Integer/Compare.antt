-- ===== src/Integer/Compare.antt =====
-- Comparisons and traps (core/src/exec_int.cpp).
use open_power_mac.Prelude.{
  ℕ, Bool, ◌&&◌, ◌||◌, bit_and, bit_or, if◌then◌else◌, ltb, has, sub32, ◌>>>◌,
}
use open_power_mac.Prelude.Int.{ℤ, signed32, ltb_ℤ, eqb_ℤ}
use open_power_mac.Bits.{f_ra, f_rb, f_d, f_crfd, f_to, sext16}
use open_power_mac.Cpu.{Cpu, CpuState, set_cr_field, raise_exc, program}
use open_power_mac.Cpu.Cause

unfoldable pub cmp_s : ℕ → ℤ → ℤ → CpuState → CpuState
cmp_s crf a b s =
    let f : ℕ = if ltb_ℤ a b then 8 else if ltb_ℤ b a then 4 else 2 in
    set_cr_field crf (bit_or f (bit_and (s.xer >>> 31) 1)) s

unfoldable pub cmp_u : ℕ → ℕ → ℕ → CpuState → CpuState
cmp_u crf a b s =
    let f : ℕ = if ltb a b then 8 else if ltb b a then 4 else 2 in
    set_cr_field crf (bit_or f (bit_and (s.xer >>> 31) 1)) s

-- The operands are the 32-bit patterns.
unfoldable pub trap_cond : ℕ → ℕ → ℕ → Bool
trap_cond to a b =
    has to 16 && ltb_ℤ (signed32 a) (signed32 b)
    || has to 8 && ltb_ℤ (signed32 b) (signed32 a)
    || has to 4 && eqb_ℤ (signed32 a) (signed32 b)
    || has to 2 && ltb a b
    || has to 1 && ltb b a

unfoldable pub h_cmpi : ℕ → CpuState → CpuState
h_cmpi i s = cmp_s (f_crfd i) (signed32 (s.gpr (f_ra i))) (signed32 (sext16 (f_d i))) s

unfoldable pub h_cmpli : ℕ → CpuState → CpuState
h_cmpli i s = cmp_u (f_crfd i) (s.gpr (f_ra i)) (f_d i) s

unfoldable pub h_cmp : ℕ → CpuState → CpuState
h_cmp i s = cmp_s (f_crfd i) (signed32 (s.gpr (f_ra i))) (signed32 (s.gpr (f_rb i))) s

unfoldable pub h_cmpl : ℕ → CpuState → CpuState
h_cmpl i s = cmp_u (f_crfd i) (s.gpr (f_ra i)) (s.gpr (f_rb i)) s

abbrev pub trap_if : Bool → Cpu → Cpu
trap_if t c = if t then raise_exc program (sub32 c.st.pc 4) Cause.trap c else c

unfoldable pub h_twi : ℕ → Cpu → Cpu
h_twi i c = trap_if (trap_cond (f_to i) (c.st.gpr (f_ra i)) (sext16 (f_d i))) c

unfoldable pub h_tw : ℕ → Cpu → Cpu
h_tw i c = trap_if (trap_cond (f_to i) (c.st.gpr (f_ra i)) (c.st.gpr (f_rb i))) c
