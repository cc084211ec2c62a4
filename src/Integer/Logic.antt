-- ===== src/Integer/Logic.antt =====
-- The logical executors (core/src/exec_int.cpp): immediate forms, and the X-forms that the LOGIC macro
-- writes out.
use open_power_mac.Prelude.{ℕ, bit_and, bit_or, bit_xor, not32, shl32}
use open_power_mac.Bits.{f_rt, f_ra, f_rb, f_d}
use open_power_mac.Cpu.{CpuState, set_cr0}
use open_power_mac.Integer.Helpers.{set_gpr, record_rc}

unfoldable pub h_ori : ℕ → CpuState → CpuState
h_ori i s = set_gpr (f_ra i) (bit_or (s.gpr (f_rt i)) (f_d i)) s

unfoldable pub h_oris : ℕ → CpuState → CpuState
h_oris i s = set_gpr (f_ra i) (bit_or (s.gpr (f_rt i)) (shl32 (f_d i) 16)) s

unfoldable pub h_xori : ℕ → CpuState → CpuState
h_xori i s = set_gpr (f_ra i) (bit_xor (s.gpr (f_rt i)) (f_d i)) s

unfoldable pub h_xoris : ℕ → CpuState → CpuState
h_xoris i s = set_gpr (f_ra i) (bit_xor (s.gpr (f_rt i)) (shl32 (f_d i) 16)) s

unfoldable pub h_andi_rc : ℕ → CpuState → CpuState
h_andi_rc i s = let r = bit_and (s.gpr (f_rt i)) (f_d i) in set_cr0 r (set_gpr (f_ra i) r s)

unfoldable pub h_andis_rc : ℕ → CpuState → CpuState
h_andis_rc i s =
    let r = bit_and (s.gpr (f_rt i)) (shl32 (f_d i) 16) in set_cr0 r (set_gpr (f_ra i) r s)

-- LOGIC(NAME, EXPR), with the expression as a function of rS and rB.
unfoldable pub logic : (ℕ → ℕ → ℕ) → ℕ → CpuState → CpuState
logic expr i s =
    let r = expr (s.gpr (f_rt i)) (s.gpr (f_rb i)) in record_rc i r (set_gpr (f_ra i) r s)

unfoldable pub h_and : ℕ → CpuState → CpuState
h_and = logic (λ s b. bit_and s b)

unfoldable pub h_andcx : ℕ → CpuState → CpuState
h_andcx = logic (λ s b. bit_and s (not32 b))

unfoldable pub h_or : ℕ → CpuState → CpuState
h_or = logic (λ s b. bit_or s b)

unfoldable pub h_orc : ℕ → CpuState → CpuState
h_orc = logic (λ s b. bit_or s (not32 b))

unfoldable pub h_xor : ℕ → CpuState → CpuState
h_xor = logic (λ s b. bit_xor s b)

unfoldable pub h_eqv : ℕ → CpuState → CpuState
h_eqv = logic (λ s b. not32 (bit_xor s b))

unfoldable pub h_nor : ℕ → CpuState → CpuState
h_nor = logic (λ s b. not32 (bit_or s b))

unfoldable pub h_nand : ℕ → CpuState → CpuState
h_nand = logic (λ s b. not32 (bit_and s b))
