-- ===== src/Cpu/Flags.antt =====
-- The small members of Cpu in core/include/opm/cpu.hpp: condition fields, carry, overflow, mode.
use open_power_mac.Prelude.{
  ℕ, ◌-◌, ◌*◌, Bool, bit_and, bit_or, if◌then◌else◌, has, shl32, not32, ◌>>>◌,
}
use open_power_mac.Prelude.Int.{signed32, ltb_ℤ, pos}
use open_power_mac.Cpu.Msr
use open_power_mac.Cpu.State.{CpuState}

unfoldable pub user_mode : CpuState → Bool
user_mode s = has s.msr Msr.pr

unfoldable pub set_cr0 : ℕ → CpuState → CpuState
set_cr0 val s =
    let v = signed32 val in
    let f : ℕ = if ltb_ℤ v (pos 0) then 8 else if ltb_ℤ (pos 0) v then 4 else 2 in
    let f' = bit_or f (bit_and (s.xer >>> 31) 1) in
    record s { cr = bit_or (bit_and s.cr 0x0fff_ffff) (shl32 f' 28) }

unfoldable pub set_cr_field : ℕ → ℕ → CpuState → CpuState
set_cr_field field nibble s =
    let sh = (7 - field) * 4 in
    record s { cr = bit_or (bit_and s.cr (not32 (shl32 0xf sh))) (shl32 (bit_and nibble 0xf) sh) }

unfoldable pub cr_field : ℕ → CpuState → ℕ
cr_field field s = bit_and (s.cr >>> ((7 - field) * 4)) 0xf

unfoldable pub set_ca : Bool → CpuState → CpuState
set_ca ca s = record s {
  xer = if ca then bit_or s.xer 0x2000_0000 else bit_and s.xer (not32 0x2000_0000);
}

unfoldable pub ca : CpuState → Bool
ca s = has s.xer 0x2000_0000

unfoldable pub set_ov : Bool → CpuState → CpuState
set_ov ov s = record s {
  xer = if ov then bit_or s.xer 0xc000_0000 else bit_and s.xer (not32 0x4000_0000);
}
