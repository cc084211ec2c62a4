-- ===== src/Integer/Helpers.antt =====
-- The small helpers of core/src/exec_int.cpp.
use open_power_mac.Prelude.{
  ℕ, ◌+◌, ◌-◌, Bool, bit_and, bit_xor, bit_or, if◌then◌else◌, ◌==◌, ◌!=◌, ◌&&◌, update, add32, u32,
  not32, shl32, ◌>>>◌,
}
use open_power_mac.Bits.{f_ra, f_rb, f_d, f_rcbit, f_oebit, sext16}
use open_power_mac.Cpu.{CpuState, set_cr0, set_ca, set_ov}

-- `gpr[r] = v`.
abbrev pub set_gpr : ℕ → ℕ → CpuState → CpuState
set_gpr r v s = record s { gpr = update s.gpr r v }

unfoldable pub gpr0 : CpuState → ℕ → ℕ
gpr0 s ra = if ra == 0 then 0 else s.gpr ra

unfoldable pub ea_d : CpuState → ℕ → ℕ
ea_d s i = add32 (gpr0 s (f_ra i)) (sext16 (f_d i))

unfoldable pub ea_x : CpuState → ℕ → ℕ
ea_x s i = add32 (gpr0 s (f_ra i)) (s.gpr (f_rb i))

unfoldable pub record_rc : ℕ → ℕ → CpuState → CpuState
record_rc i val s = if f_rcbit i != 0 then set_cr0 val s else s

-- a + b + cin with carry-out: the sum, and the state with CA and OV as they are asked for.
unfoldable pub addc3 : ℕ → ℕ → ℕ → Bool → Bool → ℕ → CpuState → ℕ × CpuState
addc3 a b cin want_ca want_ov i st =
    let s = a + b + cin in
    let r = u32 s in
    let st' = if want_ca then set_ca (s >>> 32 != 0) st else st in
    let st'' =
      if want_ov && f_oebit i != 0
      then set_ov ((bit_and (bit_xor a r) (bit_xor b r)) >>> 31 != 0) st'
      else st' in
    (r, st'')

unfoldable pub cr_bit : CpuState → ℕ → Bool
cr_bit s b = bit_and (s.cr >>> (31 - b)) 1 != 0

unfoldable pub set_cr_bit : ℕ → Bool → CpuState → CpuState
set_cr_bit b v s =
    let m = shl32 1 (31 - b) in
    record s { cr = if v then bit_or s.cr m else bit_and s.cr (not32 m) }
