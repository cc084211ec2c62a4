-- ===== src/Cpu/State.antt =====
-- The architectural state (CpuState), the processor around it (Cpu) and the exception
-- vectors of core/include/opm/cpu.hpp. An array is a function of its index.
-- Left out of `Cpu`: the caches and fetch lines, which stand behind the memory interface, and the
-- counters, logs and watchpoints that nothing in the machine reads back.
use open_power_mac.Prelude.{ℕ, Bool}

pub record CpuState : Type 0 where
  pub gpr : ℕ → ℕ
  pub fpr : ℕ → ℕ
  pub vr : ℕ → ℕ → ℕ
  pub pc : ℕ
  pub cr : ℕ
  pub xer : ℕ
  pub lr : ℕ
  pub ctr : ℕ
  pub msr : ℕ
  pub fpscr : ℕ
  pub vscr : ℕ
  pub vrsave : ℕ
  pub srr0 : ℕ
  pub srr1 : ℕ
  pub sprg : ℕ → ℕ
  pub dar : ℕ
  pub dsisr : ℕ
  pub sdr1 : ℕ
  pub ear : ℕ
  pub pir : ℕ
  pub sr : ℕ → ℕ
  pub ibatu : ℕ → ℕ
  pub ibatl : ℕ → ℕ
  pub dbatu : ℕ → ℕ
  pub dbatl : ℕ → ℕ
  pub hid0 : ℕ
  pub hid1 : ℕ
  pub msscr0 : ℕ
  pub msscr1 : ℕ
  pub l2cr : ℕ
  pub ictc : ℕ
  pub thrm : ℕ → ℕ
  pub iabr : ℕ
  pub dabr : ℕ
  pub bamr : ℕ
  pub mmcr0 : ℕ
  pub mmcr1 : ℕ
  pub pmc : ℕ → ℕ
  pub siar : ℕ
  pub sdar : ℕ
  pub tb : ℕ
  pub dec : ℕ
  pub pvr : ℕ
  pub resv_valid : Bool
  pub resv_addr : ℕ

-- An entry of the translation lookaside buffers.
pub record TlbEntry : Type 0 where
  pub v : Bool
  pub c : Bool
  pub vsid : ℕ
  pub pi : ℕ
  pub rpn : ℕ
  pub wimg : ℕ
  pub pp : ℕ

-- One of the last exceptions, kept for whoever inspects the machine.
pub record ExcRec : Type 0 where
  pub vec : ℕ
  pub srr0 : ℕ
  pub srr1 : ℕ
  pub dar : ℕ
  pub dsisr : ℕ
  pub r0 : ℕ
  pub lr : ℕ
  pub tb : ℕ

pub record Cpu : Type 0 where
  pub st : CpuState
  pub ext_irq_line : Bool
  pub smi_pending : Bool
  pub dec_pending : Bool
  pub pm_pending : Bool
  pub raised_this_step : Bool
  pub napping : Bool
  pub cur_insn : ℕ
  pub cycle_accum : ℕ
  pub cycles_per_tb_tick : ℕ
  pub extra_cycles : ℕ
  pub insn_cycles : ℕ
  pub dec_irqs : ℕ
  pub ext_irqs : ℕ
  pub pend_cycles : ℕ
  pub batching : Bool
  pub batch_break : Bool
  pub halted : Bool
  pub exc_ring : ℕ → ExcRec
  pub exc_ring_at : ℕ
  pub exc_by_vec : ℕ → ℕ
  pub itlb : ℕ → ℕ → TlbEntry
  pub dtlb : ℕ → ℕ → TlbEntry
  pub itlb_lru : ℕ → ℕ
  pub dtlb_lru : ℕ → ℕ
  pub mmu_probe : Bool
  pub real_mode_inhibit_base : ℕ
  pub mmu_gen : ℕ
  pub dxl_gen : ℕ → ℕ
  pub dxl_page : ℕ → ℕ
  pub dxl_pa : ℕ → ℕ
  pub dxl_msr : ℕ → ℕ
  pub dxl_sr : ℕ → ℕ
  pub dxl_wimg : ℕ → ℕ
  pub dxl_cache_off : Bool

pub data Exc : Type 0 where
  system_reset machine_check dsi isi external alignment program fp_unavailable decrementer : Exc
  system_call trace perf_mon vec_unavailable iabr smi vec_assist thermal : Exc

abbrev pub vector_of : Exc → ℕ
vector_of system_reset = 0x0100
vector_of machine_check = 0x0200
vector_of dsi = 0x0300
vector_of isi = 0x0400
vector_of external = 0x0500
vector_of alignment = 0x0600
vector_of program = 0x0700
vector_of fp_unavailable = 0x0800
vector_of decrementer = 0x0900
vector_of system_call = 0x0c00
vector_of trace = 0x0d00
vector_of perf_mon = 0x0f00
vector_of vec_unavailable = 0x0f20
vector_of iabr = 0x1300
vector_of smi = 0x1400
vector_of vec_assist = 0x1600
vector_of thermal = 0x1700
