-- ===== src/Integer/Arith.antt =====
-- Addition, subtraction and negation (core/src/exec_int.cpp, D-form and XO-form arithmetic).
use open_power_mac.Prelude.{
  ℕ, Bool, true, false, if◌then◌else◌, ◌==◌, ◌!=◌, add32, sub32, not32, shl32,
}
use open_power_mac.Prelude.Int.{signed32, wrap32, ◌*ℤ◌}
use open_power_mac.Bits.{f_rt, f_ra, f_rb, f_d, f_oebit, sext16}
use open_power_mac.Cpu.{CpuState, set_cr0, ca, set_ov}
use open_power_mac.Integer.Helpers.{set_gpr, gpr0, addc3, record_rc}

unfoldable pub h_addi : ℕ → CpuState → CpuState
h_addi i s = set_gpr (f_rt i) (add32 (gpr0 s (f_ra i)) (sext16 (f_d i))) s

unfoldable pub h_addis : ℕ → CpuState → CpuState
h_addis i s = set_gpr (f_rt i) (add32 (gpr0 s (f_ra i)) (shl32 (f_d i) 16)) s

unfoldable pub h_addic : ℕ → CpuState → CpuState
h_addic i s =
    let (r, s') = addc3 (s.gpr (f_ra i)) (sext16 (f_d i)) 0 true false i s in set_gpr (f_rt i) r s'

unfoldable pub h_addic_rc : ℕ → CpuState → CpuState
h_addic_rc i s =
    let (r, s') = addc3 (s.gpr (f_ra i)) (sext16 (f_d i)) 0 true false i s in
    set_cr0 r (set_gpr (f_rt i) r s')

unfoldable pub h_subfic : ℕ → CpuState → CpuState
h_subfic i s =
    let (r, s') = addc3 (not32 (s.gpr (f_ra i))) (sext16 (f_d i)) 1 true false i s in
    set_gpr (f_rt i) r s'

unfoldable pub h_mulli : ℕ → CpuState → CpuState
h_mulli i s = set_gpr (f_rt i) (wrap32 (signed32 (s.gpr (f_ra i)) *ℤ signed32 (sext16 (f_d i)))) s

-- What the XO-form additions have in common: the sum into rD, CA and OV, and the record form.
abbrev pub add_xo : ℕ → ℕ → ℕ → Bool → ℕ → CpuState → CpuState
add_xo a b cin want_ca i s =
    let (r, s') = addc3 a b cin want_ca true i s in record_rc i r (set_gpr (f_rt i) r s')

abbrev pub carry_in : CpuState → ℕ
carry_in s = if ca s then 1 else 0

unfoldable pub h_add : ℕ → CpuState → CpuState
h_add i s = add_xo (s.gpr (f_ra i)) (s.gpr (f_rb i)) 0 false i s

unfoldable pub h_addc : ℕ → CpuState → CpuState
h_addc i s = add_xo (s.gpr (f_ra i)) (s.gpr (f_rb i)) 0 true i s

unfoldable pub h_adde : ℕ → CpuState → CpuState
h_adde i s = add_xo (s.gpr (f_ra i)) (s.gpr (f_rb i)) (carry_in s) true i s

unfoldable pub h_addme : ℕ → CpuState → CpuState
h_addme i s = add_xo (s.gpr (f_ra i)) 0xffff_ffff (carry_in s) true i s

unfoldable pub h_addze : ℕ → CpuState → CpuState
h_addze i s = add_xo (s.gpr (f_ra i)) 0 (carry_in s) true i s

unfoldable pub h_subf : ℕ → CpuState → CpuState
h_subf i s = add_xo (not32 (s.gpr (f_ra i))) (s.gpr (f_rb i)) 1 false i s

unfoldable pub h_subfc : ℕ → CpuState → CpuState
h_subfc i s = add_xo (not32 (s.gpr (f_ra i))) (s.gpr (f_rb i)) 1 true i s

unfoldable pub h_subfe : ℕ → CpuState → CpuState
h_subfe i s = add_xo (not32 (s.gpr (f_ra i))) (s.gpr (f_rb i)) (carry_in s) true i s

unfoldable pub h_subfme : ℕ → CpuState → CpuState
h_subfme i s = add_xo (not32 (s.gpr (f_ra i))) 0xffff_ffff (carry_in s) true i s

unfoldable pub h_subfze : ℕ → CpuState → CpuState
h_subfze i s = add_xo (not32 (s.gpr (f_ra i))) 0 (carry_in s) true i s

unfoldable pub h_neg : ℕ → CpuState → CpuState
h_neg i s =
    let a = s.gpr (f_ra i) in
    let r = sub32 0 a in
    let s' = if f_oebit i != 0 then set_ov (a == 0x8000_0000) s else s in
    record_rc i r (set_gpr (f_rt i) r s')
