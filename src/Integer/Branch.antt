-- ===== src/Integer/Branch.antt =====
-- Branches, system call and return from interrupt (core/src/exec_int.cpp). The program counter is
-- already past the instruction.
use open_power_mac.Prelude.{
  ℕ, ◌*◌, Bool, ◌&&◌, ◌||◌, xor, bit_and, if◌then◌else◌, ◌!=◌, same, has, sub32, add32, shl32,
  not32, u32,
}
use open_power_mac.Bits.{ppcbits, f_lkbit, f_aabit, sext26, sext14}
use open_power_mac.Cpu.{Cpu, CpuState, raise_exc, system_call}
use open_power_mac.Cpu.Msr
use open_power_mac.Integer.Helpers.{cr_bit}

-- `if (f_lkbit(i)) lr = pc`.
abbrev pub link : ℕ → CpuState → CpuState
link i s = if f_lkbit i != 0 then record s { lr = s.pc } else s

unfoldable pub h_b : ℕ → CpuState → CpuState
h_b i s =
    let cia = sub32 s.pc 4 in
    let disp = sext26 (shl32 (ppcbits i 6 29) 2) in
    record (link i s) { pc = if f_aabit i != 0 then disp else add32 cia disp }

-- The decision, and the state with the count register decremented where BO asks for it.
unfoldable pub bc_taken : ℕ → ℕ → CpuState → Bool × CpuState
bc_taken bo bi s =
    let s' = if has bo 4 then s else record s { ctr = sub32 s.ctr 1 } in
    let ctr_ok = has bo 4 || xor (s'.ctr != 0) (has bo 2) in
    let cond_ok = has bo 16 || same (cr_bit s' bi) (has bo 8) in (ctr_ok && cond_ok, s')

unfoldable pub h_bc : ℕ → CpuState → CpuState
h_bc i s =
    let cia = sub32 s.pc 4 in
    let (taken, s') = bc_taken (ppcbits i 6 10) (ppcbits i 11 15) s in
    let disp = u32 (sext14 (ppcbits i 16 29) * 4) in
    let s'' = link i s' in
    if taken then record s'' { pc = if f_aabit i != 0 then disp else add32 cia disp } else s''

unfoldable pub h_bclr : ℕ → CpuState → CpuState
h_bclr i s =
    let target = bit_and s.lr (not32 3) in
    let (taken, s') = bc_taken (ppcbits i 6 10) (ppcbits i 11 15) s in
    let s'' = link i s' in if taken then record s'' { pc = target } else s''

unfoldable pub h_bcctr : ℕ → CpuState → CpuState
h_bcctr i s =
    let bo = ppcbits i 6 10 in
    let cond_ok = has bo 16 || same (cr_bit s (ppcbits i 11 15)) (has bo 8) in
    let s' = link i s in if cond_ok then record s' { pc = bit_and s.ctr (not32 3) } else s'

-- SRR0 gets the address of the instruction after `sc`.
unfoldable pub h_sc : ℕ → Cpu → Cpu
h_sc i c = raise_exc system_call c.st.pc 0 c

unfoldable pub h_rfi : ℕ → Cpu → Cpu
h_rfi i c = record c {
  st = record (c.st) { msr = bit_and c.st.srr1 Msr.valid; pc = bit_and c.st.srr0 (not32 3) };
}
