-- ===== src/Integer/MulDiv.antt =====
-- Multiplication and division (core/src/exec_int.cpp). A 64-bit product of two 32-bit words is exact
-- as an integer; its high word is taken from the 64-bit pattern.
use open_power_mac.Prelude.{
  ℕ, ◌-◌, ◌*◌, ◌/◌, ◌%◌, ◌^◌, not, ◌||◌, ◌&&◌, if◌then◌else◌, ◌==◌, ◌!=◌, ◌>>>◌,
}
use open_power_mac.Prelude.Int.{ℤ, pos, negsuc, signed32, wrap32, ◌*ℤ◌, eqb_ℤ, trunc_div}
use open_power_mac.Bits.{f_rt, f_ra, f_rb, f_oebit}
use open_power_mac.Cpu.{CpuState, set_ov}
use open_power_mac.Integer.Helpers.{set_gpr, record_rc}

-- `static_cast<u64>(p)` of an `i64`.
abbrev pub pattern64 : ℤ → ℕ
pattern64 (pos n) = n % 2 ^ 64
pattern64 (negsuc n) = 2 ^ 64 - 1 - n % 2 ^ 64

abbrev pub signed_product : ℕ → CpuState → ℤ
signed_product i s = signed32 (s.gpr (f_ra i)) *ℤ signed32 (s.gpr (f_rb i))

unfoldable pub h_mullw : ℕ → CpuState → CpuState
h_mullw i s =
    let p = signed_product i s in
    let r = wrap32 p in
    let s' = if f_oebit i != 0 then set_ov (not (eqb_ℤ p (signed32 r))) s else s in
    record_rc i r (set_gpr (f_rt i) r s')

unfoldable pub h_mulhw : ℕ → CpuState → CpuState
h_mulhw i s = let r = pattern64 (signed_product i s) >>> 32 in record_rc i r (set_gpr (f_rt i) r s)

unfoldable pub h_mulhwu : ℕ → CpuState → CpuState
h_mulhwu i s =
    let r = (s.gpr (f_ra i) * s.gpr (f_rb i)) >>> 32 in record_rc i r (set_gpr (f_rt i) r s)

-- Division by zero, and the one quotient that does not fit, give 0.
unfoldable pub h_divw : ℕ → CpuState → CpuState
h_divw i s =
    let a = signed32 (s.gpr (f_ra i)) in
    let b = signed32 (s.gpr (f_rb i)) in
    let bad = eqb_ℤ b (pos 0) || (eqb_ℤ a (signed32 0x8000_0000) && eqb_ℤ b (negsuc 0)) in
    let r = if bad then 0 else wrap32 (trunc_div a b) in
    let s' = if f_oebit i != 0 then set_ov bad s else s in record_rc i r (set_gpr (f_rt i) r s')

unfoldable pub h_divwu : ℕ → CpuState → CpuState
h_divwu i s =
    let a = s.gpr (f_ra i) in
    let b = s.gpr (f_rb i) in
    let bad = b == 0 in
    let r = if bad then 0 else a / b in
    let s' = if f_oebit i != 0 then set_ov bad s else s in record_rc i r (set_gpr (f_rt i) r s')
