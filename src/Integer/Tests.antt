-- ===== src/Integer/Tests.antt =====
-- Instructions run on a concrete state.
use open_power_mac.Prelude.{
  ℕ, ◌+◌, ◌-◌, ◌*◌, ◌%◌, ◌^◌, ◌≡◌, refl, true, arith, if◌then◌else◌, ◌==◌, leb, ltb, min, max,
  bit_and, not32,
}
use open_power_mac.Prelude.BitLaws.{bit}
use open_power_mac.Prelude.Int.{ℤ, pos, signed32, trunc_div, ltb_ℤ}
use open_power_mac.Bits.{ppcbits, ppcbit, f_rt, f_ra, f_rb, f_sh, f_mb, f_me, f_oebit}
use open_power_mac.Bits.Laws.{in_mask}
use open_power_mac.Cpu.{ca, cr_field, raise_exc, program}
use open_power_mac.Cpu.Cause
use open_power_mac.Cpu.Samples.{sample, sample_state}
use open_power_mac.Integer.Arith.{add_xo, h_addc, h_adde, h_subfc, h_subfe, h_addze}
use open_power_mac.Integer.MulDiv.{h_mullw, h_mulhwu}
use open_power_mac.Integer.Shift.{h_srawi, h_rlwinm, h_rlwimi}
use open_power_mac.Integer.Compare.{cmp_u, cmp_s}
use open_power_mac.Integer.Branch.{h_rfi}
use open_power_mac.Integer.RecordLaws.{Words}
use open_power_mac.Integer.AddLaws.{Added, add_xo-Added, Paired, pair, addc-adde, subfc-subfe}
use open_power_mac.Integer.ShiftLaws.{h_rlwinm_bits, h_rlwimi_bits}
use open_power_mac.Integer.ShiftValues.{srawi-addze}
use open_power_mac.Integer.MulDivLaws.{mullw-mulhwu}
use open_power_mac.Integer.CompareLaws.{verdict, cmp_fields}
use open_power_mac.Integer.BranchLaws.{h_rfi-raise_exc}

sample-Words : Words sample_state
sample-Words q = omega arith

-- An instruction word with the registers rD (or rS), rA and rB.
abbrev regs : ℕ → ℕ → ℕ → ℕ
regs d a b = d * 2 ^ 21 + a * 2 ^ 16 + b * 2 ^ 11

low_regs-high_regs : Paired (regs 3 4 5) (regs 6 7 8)
unfolding f_rt f_ra f_rb ppcbits
low_regs-high_regs = (omega arith, omega arith, omega arith)

add_xo-Added_example :
    Added 0x7fff_ffff 1 1 3 true true sample_state
      (add_xo 0x7fff_ffff 1 1 true (regs 3 4 5 + 2 ^ 10) sample_state)
unfolding f_rt f_oebit ppcbits ppcbit
add_xo-Added_example =
    add_xo-Added 0x7fff_ffff 1 1 (regs 3 4 5 + 2 ^ 10) true sample_state (omega arith) (omega arith)
      (omega arith)

addc-adde_example :
    (pair (h_adde (regs 6 7 8) (h_addc (regs 3 4 5) sample_state)) 6 3
      ≡ (pair sample_state 7 4 + pair sample_state 8 5) % 2 ^ 64)
    × (ca (h_adde (regs 6 7 8) (h_addc (regs 3 4 5) sample_state))
        ≡ leb (2 ^ 64) (pair sample_state 7 4 + pair sample_state 8 5))
unfolding f_rt f_ra f_rb ppcbits
addc-adde_example = addc-adde (regs 3 4 5) (regs 6 7 8) sample_state sample-Words low_regs-high_regs

subfc-subfe_example :
    (pair (h_subfe (regs 6 7 8) (h_subfc (regs 3 4 5) sample_state)) 6 3
      ≡ (pair sample_state 8 5 + 2 ^ 64 - pair sample_state 7 4) % 2 ^ 64)
    × (ca (h_subfe (regs 6 7 8) (h_subfc (regs 3 4 5) sample_state))
        ≡ leb (pair sample_state 7 4) (pair sample_state 8 5))
unfolding f_rt f_ra f_rb ppcbits
subfc-subfe_example =
    subfc-subfe (regs 3 4 5) (regs 6 7 8) sample_state sample-Words low_regs-high_regs

-- rlwinm r4,r3,5,20,27 and rlwimi with the same fields.
abbrev rotate : ℕ
rotate = regs 3 4 5 + 20 * 2 ^ 6 + 27 * 2

h_rlwinm_bits_example : ppcbit ((h_rlwinm rotate sample_state).gpr (f_ra rotate)) 22 ≡ (
    if in_mask (f_mb rotate) (f_me rotate) 22
    then ppcbit (sample_state.gpr (f_rt rotate)) ((22 + f_sh rotate) % 32)
    else 0)
h_rlwinm_bits_example = h_rlwinm_bits rotate 22 sample_state sample-Words (omega arith)

h_rlwimi_bits_example : ppcbit ((h_rlwimi rotate sample_state).gpr (f_ra rotate)) 3 ≡ (
    if in_mask (f_mb rotate) (f_me rotate) 3
    then ppcbit (sample_state.gpr (f_rt rotate)) ((3 + f_sh rotate) % 32)
    else ppcbit (sample_state.gpr (f_ra rotate)) 3)
h_rlwimi_bits_example = h_rlwimi_bits rotate 3 sample_state sample-Words (omega arith)

-- srawi r4,r7,5 and addze r6,r4.
srawi-addze_example :
    signed32 ((h_addze (regs 6 4 0) (h_srawi (regs 7 4 5) sample_state)).gpr 6)
    ≡ trunc_div (signed32 (sample_state.gpr 7)) (pos (2 ^ 5))
unfolding f_rt f_ra f_sh ppcbits
srawi-addze_example = srawi-addze (regs 7 4 5) (regs 6 4 0) sample_state sample-Words refl

mullw-mulhwu_example :
    (h_mullw (regs 3 4 5) sample_state).gpr 3 + 2 ^ 32 * (h_mulhwu (regs 6 4 5) sample_state).gpr 6
    ≡ sample_state.gpr 4 * sample_state.gpr 5
unfolding f_rt f_ra f_rb ppcbits
mullw-mulhwu_example = mullw-mulhwu (regs 3 4 5) (regs 6 4 5) sample_state sample-Words refl refl

cmp_fields_example :
    ((a b : ℕ)
      → cr_field 2 (cmp_u 2 a b sample_state)
        ≡ (if 2 == 2 then verdict (ltb a b) (ltb b a) sample_state else cr_field 2 sample_state))
    × ((a b : ℤ)
        → cr_field 2 (cmp_s 2 a b sample_state) ≡ (
            if 2 == 2
            then verdict (ltb_ℤ a b) (ltb_ℤ b a) sample_state
            else cr_field 2 sample_state))
cmp_fields_example = cmp_fields 2 2 sample_state (omega arith) (omega arith)

h_rfi-raise_exc_example :
    (bit (h_rfi 0 (raise_exc program 0x1000 Cause.illegal sample)).st.msr 15
      ≡ max
          (min (bit sample.st.msr 15) (bit 0x0200_ff77 15))
          (min (bit Cause.illegal 15) (bit 0x0005_0000 15)))
    × ((h_rfi 0 (raise_exc program 0x1000 Cause.illegal sample)).st.pc ≡ bit_and 0x1000 (not32 3))
h_rfi-raise_exc_example = h_rfi-raise_exc program 0 0x1000 Cause.illegal 15 sample (omega arith)
