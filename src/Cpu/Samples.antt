-- ===== src/Cpu/Samples.antt =====
-- A state of the processor for runs and examples.
use open_power_mac.Prelude.{false, ◌*◌, ◌%◌, ◌^◌}
use open_power_mac.Cpu.State.{Cpu, CpuState, TlbEntry, ExcRec}

abbrev pub no_entry : TlbEntry
no_entry = record { v = false; c = false; vsid = 0; pi = 0; rpn = 0; wimg = 0; pp = 0 }

abbrev pub no_exception : ExcRec
no_exception = record { vec = 0; srr0 = 0; srr1 = 0; dar = 0; dsisr = 0; r0 = 0; lr = 0; tb = 0 }

abbrev pub sample_state : CpuState
sample_state = record {
  gpr = λ q. q * 0x2468_ace1 % 2 ^ 32;
  fpr = λ _. 0;
  vr = λ _ _. 0;
  pc = 0x104;
  cr = 0;
  xer = 0;
  lr = 0;
  ctr = 2;
  msr = 0;
  fpscr = 0;
  vscr = 0;
  vrsave = 0;
  srr0 = 0;
  srr1 = 0;
  sprg = λ _. 0;
  dar = 0;
  dsisr = 0;
  sdr1 = 0;
  ear = 0;
  pir = 0;
  sr = λ _. 0;
  ibatu = λ _. 0;
  ibatl = λ _. 0;
  dbatu = λ _. 0;
  dbatl = λ _. 0;
  hid0 = 0;
  hid1 = 0;
  msscr0 = 0;
  msscr1 = 0;
  l2cr = 0;
  ictc = 0;
  thrm = λ _. 0;
  iabr = 0;
  dabr = 0;
  bamr = 0;
  mmcr0 = 0;
  mmcr1 = 0;
  pmc = λ _. 0;
  siar = 0;
  sdar = 0;
  tb = 0;
  dec = 100;
  pvr = 0;
  resv_valid = false;
  resv_addr = 0;
}

abbrev pub sample : Cpu
sample = record {
  st = sample_state;
  ext_irq_line = false;
  smi_pending = false;
  dec_pending = false;
  pm_pending = false;
  raised_this_step = false;
  napping = false;
  cur_insn = 0;
  cycle_accum = 0;
  cycles_per_tb_tick = 4;
  extra_cycles = 0;
  insn_cycles = 0;
  dec_irqs = 0;
  ext_irqs = 0;
  pend_cycles = 0;
  batching = false;
  batch_break = false;
  halted = false;
  exc_ring = λ _. no_exception;
  exc_ring_at = 0;
  exc_by_vec = λ _. 0;
  itlb = λ _ _. no_entry;
  dtlb = λ _ _. no_entry;
  itlb_lru = λ _. 0;
  dtlb_lru = λ _. 0;
  mmu_probe = false;
  real_mode_inhibit_base = 0;
  mmu_gen = 0;
  dxl_gen = λ _. 0;
  dxl_page = λ _. 0;
  dxl_pa = λ _. 0;
  dxl_msr = λ _. 0;
  dxl_sr = λ _. 0;
  dxl_wimg = λ _. 0;
  dxl_cache_off = false;
}
