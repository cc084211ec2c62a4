-- ===== src/Integer/BranchLaws.antt =====
-- What the branches, system call and return from interrupt of core/src/exec_int.cpp do.
use open_power_mac.Prelude.{
  ℕ, ◌<◌, ◌≡◌, refl, sym, min, max, Bool, xor, ◌&&◌, true, false, arith, bit_and, bit_or, has,
  not32, ◌!=◌, sub32,
}
use open_power_mac.Prelude.BitLaws.{bit, bit-and, bit-or}
use open_power_mac.Cpu.Msr
use open_power_mac.Cpu.{Cpu, CpuState, Exc, raise_exc, exc_state}
use open_power_mac.Integer.Branch.{bc_taken, h_rfi}

-- A return from the exception just taken: each bit of the machine state register is on if it is
-- among 0x0200ff77 and was on in the interrupted state, or is among 0x00050000 and is on in the
-- status `extra`, and execution goes on at the saved address, rounded down to a whole instruction.
pub h_rfi-raise_exc :
    (v : Exc) (i srr0 extra k : ℕ) (c : Cpu)
    → k < 32
    → (bit (h_rfi i (raise_exc v srr0 extra c)).st.msr k
        ≡ max (min (bit c.st.msr k) (bit 0x0200_ff77 k)) (min (bit extra k) (bit 0x0005_0000 k)))
      × ((h_rfi i (raise_exc v srr0 extra c)).st.pc ≡ bit_and srr0 (not32 3))
unfolding h_rfi raise_exc exc_state
h_rfi-raise_exc v i srr0 extra k c lt =
    let m = c.st.msr in
    let saved : min (bit 0x87c0_ffff k) (bit Msr.valid k) ≡ bit 0x0200_ff77 k =
      sym (bit-and 0x87c0_ffff Msr.valid k) in
    let status : min (bit 0x783f_0000 k) (bit Msr.valid k) ≡ bit 0x0005_0000 k =
      sym (bit-and 0x783f_0000 Msr.valid k) in
    (
      rw
          (
            bit-and (bit_or (bit_and m 0x87c0_ffff) (bit_and extra 0x783f_0000)) Msr.valid k,
            bit-or (bit_and m 0x87c0_ffff) (bit_and extra 0x783f_0000) k,
            bit-and m 0x87c0_ffff k,
            bit-and extra 0x783f_0000 k,
            ← saved,
            ← status,
          )
          (omega arith),
      refl,
    )

-- The decision of a branch that counts down: with BO asking for a decrement and for no condition,
-- it is to branch exactly when the decremented count is not 0 (is 0, where the bit 2 of BO is
-- set), and the count is one less, modulo 2 ^ 32.
pub counted_branch :
    (bo bi : ℕ) (s : CpuState)
    → has bo 4 ≡ false
    → has bo 16 ≡ true
    → ((bc_taken bo bi s).0 ≡ xor (sub32 s.ctr 1 != 0) (has bo 2))
      × ((bc_taken bo bi s).1.ctr ≡ sub32 s.ctr 1)
unfolding bc_taken
counted_branch bo bi s counts free = rw (counts, free) (and_true _, refl)
  where
    and_true : (b : Bool) → (b && true) ≡ b
    and_true b = ground arith
