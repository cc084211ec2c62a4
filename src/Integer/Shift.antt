-- ===== src/Integer/Shift.antt =====
-- Shifts, rotates, sign extension and the count of leading zeros (core/src/exec_int.cpp).
use open_power_mac.Prelude.{
  ℕ, zero, suc, ◌+◌, ◌-◌, ◌%◌, ◌^◌, Bool, ◌&&◌, bit_and, bit_or, if◌then◌else◌, leb, ◌!=◌, shl32,
  not32, ◌>>>◌,
}
use open_power_mac.Prelude.Int.{signed32, ltb_ℤ, pos}
use open_power_mac.Bits.{f_rt, f_ra, f_rb, f_sh, f_mb, f_me, ppcmask, sar32}
use open_power_mac.Cpu.{CpuState, set_ca}
use open_power_mac.Integer.Helpers.{set_gpr, record_rc}

unfoldable pub rotl : ℕ → ℕ → ℕ
rotl v n = let k = bit_and n 31 in bit_or (shl32 v k) (v >>> (32 - k))

unfoldable pub h_rlwinm : ℕ → CpuState → CpuState
h_rlwinm i s =
    let r = bit_and (rotl (s.gpr (f_rt i)) (f_sh i)) (ppcmask (f_mb i) (f_me i)) in
    record_rc i r (set_gpr (f_ra i) r s)

unfoldable pub h_rlwnm : ℕ → CpuState → CpuState
h_rlwnm i s =
    let r =
      bit_and (rotl (s.gpr (f_rt i)) (bit_and (s.gpr (f_rb i)) 31)) (ppcmask (f_mb i) (f_me i)) in
    record_rc i r (set_gpr (f_ra i) r s)

unfoldable pub h_rlwimi : ℕ → CpuState → CpuState
h_rlwimi i s =
    let m = ppcmask (f_mb i) (f_me i) in
    let r =
      bit_or (bit_and (rotl (s.gpr (f_rt i)) (f_sh i)) m) (bit_and (s.gpr (f_ra i)) (not32 m)) in
    record_rc i r (set_gpr (f_ra i) r s)

unfoldable pub h_slw : ℕ → CpuState → CpuState
h_slw i s =
    let n = bit_and (s.gpr (f_rb i)) 63 in
    let r = if leb 32 n then 0 else shl32 (s.gpr (f_rt i)) n in record_rc i r (set_gpr (f_ra i) r s)

unfoldable pub h_srw : ℕ → CpuState → CpuState
h_srw i s =
    let n = bit_and (s.gpr (f_rb i)) 63 in
    let r = if leb 32 n then 0 else s.gpr (f_rt i) >>> n in record_rc i r (set_gpr (f_ra i) r s)

abbrev pub is_negative : ℕ → Bool
is_negative v = ltb_ℤ (signed32 v) (pos 0)

-- The carry of an arithmetic right shift: a negative value that loses one bits.
abbrev pub lost_ones : ℕ → ℕ → Bool
lost_ones v n = is_negative v && n != 0 && bit_and v (shl32 1 n - 1) != 0

unfoldable pub h_sraw : ℕ → CpuState → CpuState
h_sraw i s =
    let n = bit_and (s.gpr (f_rb i)) 63 in
    let v = s.gpr (f_rt i) in
    let r = if leb 32 n then sar32 v 31 else sar32 v n in
    let carry = if leb 32 n then is_negative v else lost_ones v n in
    record_rc i r (set_gpr (f_ra i) r (set_ca carry s))

unfoldable pub h_srawi : ℕ → CpuState → CpuState
h_srawi i s =
    let n = f_sh i in
    let v = s.gpr (f_rt i) in
    let r = sar32 v n in record_rc i r (set_gpr (f_ra i) r (set_ca (lost_ones v n) s))

-- std::countl_zero, on `n` bits.
unfoldable pub countl_zero : ℕ → ℕ → ℕ
countl_zero zero v = 0
countl_zero (suc n) v = let rest = countl_zero n v in if leb (2 ^ n) v then 0 else suc rest

unfoldable pub h_cntlzw : ℕ → CpuState → CpuState
h_cntlzw i s = let r = countl_zero 32 (s.gpr (f_rt i)) in record_rc i r (set_gpr (f_ra i) r s)

unfoldable pub h_extsb : ℕ → CpuState → CpuState
h_extsb i s =
    let low = s.gpr (f_rt i) % 2 ^ 8 in
    let r = if leb 0x80 low then low + 0xffff_ff00 else low in record_rc i r (set_gpr (f_ra i) r s)

unfoldable pub h_extsh : ℕ → CpuState → CpuState
h_extsh i s =
    let low = s.gpr (f_rt i) % 2 ^ 16 in
    let r = if leb 0x8000 low then low + 0xffff_0000 else low in
    record_rc i r (set_gpr (f_ra i) r s)
