-- ===== src/Mmu/Memory.antt =====
-- What core/src/mmu.cpp calls for physical memory: Cpu::memRead and Cpu::memWrite, which go through the
-- caches, and Bus::read32, which does not. `M` is everything behind them: the caches, the
-- memory and the devices. A call sees the processor's registers and leaves them alone.
use open_power_mac.Prelude.{ℕ}
use open_power_mac.Cpu.{Cpu, CpuState}

pub record Memory (M : Type 0) : Type 0 where
  -- The address, the length in bytes and the WIMG bits.
  pub mem_read : CpuState → ℕ → ℕ → ℕ → M → ℕ × M
  -- The address, the length, the value and the WIMG bits.
  pub mem_write : CpuState → ℕ → ℕ → ℕ → ℕ → M → M
  pub bus_read32 : ℕ → M → ℕ × M

-- The processor and all that is behind its memory operations.
pub record Machine (M : Type 0) : Type 0 where
  pub cpu : Cpu
  pub mem : M
