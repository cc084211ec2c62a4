-- ===== src/Cpu/FlagLaws.antt =====
-- The carry, overflow and summary overflow bits, set and read (core/include/opm/cpu.hpp).
use open_power_mac.Prelude.{
  ℕ, ◌-◌, ◌^◌, ◌<◌, ◌≡◌, refl, ◌∙◌, ap, Bool, true, false, ◌||◌, arith, bit_and, bit_or, ◌==◌, has,
  not32, max, min,
}
use open_power_mac.Prelude.BitLaws.{bit, bit-and, bit-or, bit-complement, has-bit}
use open_power_mac.Cpu.State.{CpuState}
use open_power_mac.Cpu.Flags.{set_ca, ca, set_ov}

abbrev pub ov : CpuState → Bool
ov s = has s.xer 0x4000_0000

abbrev pub so : CpuState → Bool
so s = has s.xer 0x8000_0000

-- A bit after an `or` or an `and not` with a constant whose bit there is known.
pub has-or : (k x m b : ℕ) → bit m k ≡ b → has (bit_or x m) (2 ^ k) ≡ (max (bit x k) b == 1)
has-or k x m b e = has-bit k (bit_or x m) ∙ ap (λ (t : ℕ). t == 1) (bit-or x m k ∙ rw e refl)

pub has-clear :
    (k x m b : ℕ)
    → k < 32
    → m < 2 ^ 32
    → bit m k ≡ b
    → has (bit_and x (not32 m)) (2 ^ k) ≡ (min (bit x k) (1 - b) == 1)
has-clear k x m b lt small e =
    has-bit k (bit_and x (not32 m))
    ∙ ap (λ (t : ℕ). t == 1) (bit-and x (not32 m) k ∙ rw (bit-complement 32 m k small lt, e) refl)

pub ca-set_ca : (b : Bool) (s : CpuState) → ca (set_ca b s) ≡ b
unfolding ca set_ca bit
ca-set_ca true s = has-or 29 s.xer 0x2000_0000 1 refl ∙ ground arith
ca-set_ca false s = has-clear 29 s.xer 0x2000_0000 1 (omega arith) (omega arith) refl ∙ ground arith

pub ca-set_ov : (b : Bool) (s : CpuState) → ca (set_ov b s) ≡ ca s
unfolding ca set_ov bit
ca-set_ov true s = has-or 29 s.xer 0xc000_0000 0 refl ∙ ground (arith, has-bit 29 s.xer)
ca-set_ov false s =
    has-clear 29 s.xer 0x4000_0000 0 (omega arith) (omega arith) refl
    ∙ ground (arith, has-bit 29 s.xer)

pub ov-set_ov : (b : Bool) (s : CpuState) → ov (set_ov b s) ≡ b
unfolding set_ov bit
ov-set_ov true s = has-or 30 s.xer 0xc000_0000 1 refl ∙ ground arith
ov-set_ov false s = has-clear 30 s.xer 0x4000_0000 1 (omega arith) (omega arith) refl ∙ ground arith

-- The summary overflow bit is sticky.
pub so-set_ov : (b : Bool) (s : CpuState) → so (set_ov b s) ≡ (b || so s)
unfolding set_ov bit
so-set_ov true s = has-or 31 s.xer 0xc000_0000 1 refl ∙ ground arith
so-set_ov false s =
    has-clear 31 s.xer 0x4000_0000 0 (omega arith) (omega arith) refl
    ∙ ground (arith, has-bit 31 s.xer)

pub ov-set_ca : (b : Bool) (s : CpuState) → (ov (set_ca b s) ≡ ov s) × (so (set_ca b s) ≡ so s)
unfolding set_ca bit
ov-set_ca true s = (
  has-or 30 s.xer 0x2000_0000 0 refl ∙ ground (arith, has-bit 30 s.xer),
  has-or 31 s.xer 0x2000_0000 0 refl ∙ ground (arith, has-bit 31 s.xer),
)
ov-set_ca false s = (
  has-clear 30 s.xer 0x2000_0000 0 (omega arith) (omega arith) refl
      ∙ ground (arith, has-bit 30 s.xer),
  has-clear 31 s.xer 0x2000_0000 0 (omega arith) (omega arith) refl
      ∙ ground (arith, has-bit 31 s.xer),
)
