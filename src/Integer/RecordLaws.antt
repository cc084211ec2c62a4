-- ===== src/Integer/RecordLaws.antt =====
-- The record form of an executor (core/src/exec_int.cpp) touches the condition register alone.
use open_power_mac.Prelude.{
  ℕ, ◌<◌, ◌≡◌, ◌≢◌, ◌^◌, ◌∙◌, ap, Bool-cases, inl, inr, ◌!=◌, update_same, update_other,
}
use open_power_mac.Bits.{f_rcbit}
use open_power_mac.Cpu.{CpuState, set_cr0}
use open_power_mac.Integer.Helpers.{set_gpr, record_rc}

pub record_rc-gpr : (i v : ℕ) (s : CpuState) → (record_rc i v s).gpr ≡ s.gpr
unfolding record_rc set_cr0
record_rc-gpr i v s = elim (Bool-cases (f_rcbit i != 0)) [ inl rc ↦ rw rc | inr plain ↦ rw plain ]

pub record_rc-xer : (i v : ℕ) (s : CpuState) → (record_rc i v s).xer ≡ s.xer
unfolding record_rc set_cr0
record_rc-xer i v s = elim (Bool-cases (f_rcbit i != 0)) [ inl rc ↦ rw rc | inr plain ↦ rw plain ]

-- Every register of the state is a 32-bit word.
abbrev pub Words : CpuState → Type 0
Words s = (q : ℕ) → s.gpr q < 2 ^ 32

-- A value written to a register and recorded.
pub record_rc-set_gpr :
    (i r v : ℕ) (s : CpuState)
    → ((record_rc i v (set_gpr r v s)).gpr r ≡ v)
      × ((q : ℕ) → q ≢ r → (record_rc i v (set_gpr r v s)).gpr q ≡ s.gpr q)
record_rc-set_gpr i r v s =
    let regs = record_rc-gpr i v (set_gpr r v s) in
    (
      ap (λ (g : ℕ → ℕ). g r) regs ∙ update_same s.gpr r v,
      λ q ne. ap (λ (g : ℕ → ℕ). g q) regs ∙ update_other s.gpr r q v ne,
    )
