-- ===== src/Step/Execute.antt =====
-- Cpu::step and Cpu::execRow of core/src/cpu.cpp. The instruction table and the fetch path are an
-- interface. Left out are the tallies of unknown and unimplemented words and the reason of a halt.
use open_power_mac.Prelude.{
  ℕ, ◌+◌, Bool, true, false, not, Option, none, some, bit_and, bit_xor, if◌then◌else◌, ◌==◌, ◌!=◌,
  has, same, add32, u32, u64, update, ◌>>>◌, ◌&&◌, ◌||◌,
}
use open_power_mac.Cpu.{
  Cpu, CpuState, Exc, raise_exc, user_mode, smi, external, decrementer, perf_mon, iabr, program,
  fp_unavailable, vec_unavailable, trace,
}
use open_power_mac.Cpu.Msr
use open_power_mac.Cpu.Cause
use open_power_mac.Clock.{charge}
use open_power_mac.Mmu.{Machine}

-- A row of the instruction table: its gates before dispatch, and what the trace asks about it.
pub record Row : Type 0 where
  pub illegal : Bool
  pub privileged : Bool
  pub needs_fp : Bool
  pub needs_vec : Bool
  pub is_rfi : Bool
  pub is_isync : Bool
  pub is_branch : Bool

-- The tables behind the dispatch, and the fetch of a decoded word: the word and its row (`none` for an
-- unknown word), or `none` where the fetch raised an exception.
pub record Isa (M : Type 0) : Type 0 where
  pub row : ℕ → Row
  pub handler : ℕ → Option (ℕ → Machine M → Machine M)
  pub fetch_decoded : ℕ → Machine M → Option (ℕ × Option ℕ) × Machine M

abbrev pub step_cycles : Cpu → ℕ
step_cycles c = u32 (c.insn_cycles + c.extra_cycles)

unfoldable pub halt : Cpu → Cpu
halt c = record c { halted = true }

-- One counter of the performance monitor.
unfoldable pub count_event : ℕ → ℕ → ℕ → Cpu → Cpu
count_event n sel enable c =
    let old = c.st.pmc n in
    let new = add32 old 1 in
    let asks =
      not (has old 0x8000_0000)
      && has new 0x8000_0000
      && has c.st.mmcr0 0x0400_0000
      && has c.st.mmcr0 enable in
    if sel == 1 || sel == 2
    then record c {
      st = record (c.st) { pmc = update c.st.pmc n new };
      pm_pending = if asks then true else c.pm_pending;
    }
    else c

unfoldable pub count_instruction : Cpu → Cpu
count_instruction c =
    if c.st.mmcr0 != 0 && not (has c.st.mmcr0 0x8000_0000)
    then count_event 1 (bit_and c.st.mmcr0 0x3f) 0x4000
        (count_event 0 (bit_and (c.st.mmcr0 >>> 6) 0x7f) 0x8000 c)
    else c

-- The trace exception of a completed instruction.
unfoldable pub trace_after : Row → ℕ → Cpu → Cpu
trace_after r fall_through c =
    let taken = r.is_branch && c.st.pc != fall_through in
    if c.halted || c.raised_this_step
    then c
    else if not r.is_rfi
        && not r.is_isync
        && (has c.st.msr Msr.se || (has c.st.msr Msr.be && taken))
    then raise_exc trace c.st.pc 0 c
    else c

-- The exception of the first gate that is shut.
unfoldable pub gate : Row → Cpu → Option (Exc × ℕ)
gate r c =
    if r.illegal
    then some (program, Cause.illegal)
    else if r.privileged && user_mode c.st
    then some (program, Cause.privileged)
    else if r.needs_fp && not (has c.st.msr Msr.fp)
    then some (fp_unavailable, 0)
    else if r.needs_vec && not (has c.st.msr Msr.vec)
    then some (vec_unavailable, 0)
    else none

-- The request that an enabled processor takes, with what becomes of the processor.
unfoldable pub take_interrupt : Cpu → Option Cpu
take_interrupt c =
    let taken =
      λ (v : Exc) (c' : Cpu). some (let r = raise_exc v c'.st.pc 0 c' in charge r.extra_cycles r) in
    if c.smi_pending
    then taken smi (record c { smi_pending = false })
    else if c.ext_irq_line
    then taken external (record c { ext_irqs = u64 (c.ext_irqs + 1) })
    else if c.dec_pending
    then taken decrementer (record c { dec_pending = false; dec_irqs = u64 (c.dec_irqs + 1) })
    else if c.pm_pending
    then taken perf_mon (record c { pm_pending = false })
    else none

abbrev pub at_breakpoint : CpuState → Bool
at_breakpoint s =
    has s.iabr 2
    && bit_and (bit_xor s.pc s.iabr) 0xffff_fffc == 0
    && same (has s.iabr 1) (has s.msr Msr.ir)

abbrev pub wakes : Cpu → Bool
wakes c = has c.st.msr Msr.ee && (c.smi_pending || c.ext_irq_line || c.dec_pending || c.pm_pending)

module _ {M : Type 0} (isa : Isa M) where
  unfoldable pub run_handler : (ℕ → Machine M → Machine M) → Row → ℕ → Machine M → Machine M
  run_handler fn r insn m =
      let next = add32 m.cpu.st.pc 4 in
      let m' =
        fn insn (record m { cpu = record (m.cpu) { st = record (m.cpu.st) { pc = next } } }) in
      record m' {
        cpu = trace_after r next (count_instruction (charge (step_cycles m'.cpu) m'.cpu));
      }

  unfoldable pub dispatch : ℕ → ℕ → Machine M → Machine M
  dispatch insn row m = elim (gate (isa.row row) m.cpu) [
    | some e ↦
        let c = raise_exc e.0 m.cpu.st.pc e.1 m.cpu in record m { cpu = charge (step_cycles c) c }
    | none ↦ elim (isa.handler row) [
      | none ↦ record m { cpu = halt m.cpu }
      | some fn ↦ run_handler fn (isa.row row) insn m
    ]
  ]

  unfoldable pub exec_row : ℕ → Option ℕ → Machine M → Machine M
  exec_row insn row m =
      let c = record (m.cpu) { raised_this_step = false; cur_insn = insn } in
      elim row [
        | none ↦
            let c' = raise_exc program c.st.pc Cause.illegal c in
            record m { cpu = charge (step_cycles c') c' }
        | some r ↦ dispatch insn r (record m { cpu = c })
      ]

  unfoldable pub fetch_and_execute : Machine M → Machine M
  fetch_and_execute m =
      let (word, m') = isa.fetch_decoded m.cpu.st.pc m in
      if at_breakpoint m.cpu.st
      then (let c = raise_exc iabr m.cpu.st.pc 0 m.cpu in
          record m { cpu = charge (step_cycles c) c })
      else (elim word [
        | none ↦ record m' { cpu = charge (step_cycles m'.cpu) m'.cpu }
        | some w ↦ exec_row w.0 w.1 m'
      ])

  unfoldable pub after_interrupt : Machine M → Option Cpu → Machine M
  after_interrupt m (some c) = record m { cpu = c }
  after_interrupt m none = fetch_and_execute m

  unfoldable pub awake_step : Machine M → Machine M
  awake_step m = after_interrupt m (if has m.cpu.st.msr Msr.ee then take_interrupt m.cpu else none)

  unfoldable pub step : Machine M → Machine M
  step m =
      let c = record (m.cpu) { raised_this_step = false } in
      if c.napping && not (wakes c)
      then record m { cpu = charge (step_cycles c) c }
      else awake_step (record m { cpu = record c { napping = false } })
