-- ===== src/Step/InterruptLaws.antt =====
-- Which interrupt a step takes, and where it leaves the processor (core/src/cpu.cpp).
use open_power_mac.Prelude.{
  ℕ, zero, suc, ◌+◌, ◌-◌, ◌≡◌, refl, ◌∙◌, sym, subst, ap, Bool, true, false, not, Option, none,
  some, bit_or, if◌then◌else◌, ◌==◌, ltb, has, u64, ◌&&◌, arith,
}
use open_power_mac.Cpu.{
  Cpu, CpuState, Exc, vector_of, raise_exc, exc_state, smi, external, decrementer, perf_mon,
}
use open_power_mac.Cpu.ExceptionLaws.{handler_msr-HandlerState}
use open_power_mac.Cpu.Msr
use open_power_mac.Clock.{tick, advance, advance_chunks, clock_advance_cycles, sync_clock, charge}
use open_power_mac.Mmu.{Machine}
use open_power_mac.Step.Execute.{Isa, take_interrupt, wakes, after_interrupt, awake_step, step}

-- The program's place and registers are the same, and the requests but that of the decrementer.
pub record Keeps (c e : Cpu) : Type 0 where
  pub pc : e.st.pc ≡ c.st.pc
  pub msr : e.st.msr ≡ c.st.msr
  pub srr0 : e.st.srr0 ≡ c.st.srr0
  pub gpr : e.st.gpr ≡ c.st.gpr
  pub smi : e.smi_pending ≡ c.smi_pending
  pub ext : e.ext_irq_line ≡ c.ext_irq_line
  pub pm : e.pm_pending ≡ c.pm_pending

Keeps-trans : (a b c : Cpu) → Keeps a b → Keeps b c → Keeps a c
Keeps-trans a b c h k = record {
  pc = k.pc ∙ h.pc;
  msr = k.msr ∙ h.msr;
  srr0 = k.srr0 ∙ h.srr0;
  gpr = k.gpr ∙ h.gpr;
  smi = k.smi ∙ h.smi;
  ext = k.ext ∙ h.ext;
  pm = k.pm ∙ h.pm;
}

Keeps-if : (b : Bool) (c x y : Cpu) → Keeps c x → Keeps c y → Keeps c (if b then x else y)
Keeps-if true c x y h k = h
Keeps-if false c x y h k = k

tick-Keeps : (n : ℕ) (c : Cpu) → Keeps c (tick n c)
unfolding tick advance
tick-Keeps n c =
    Keeps-if _ c _ _
      (record { pc = refl; msr = refl; srr0 = refl; gpr = refl; smi = refl; ext = refl; pm = refl })
      (record { pc = refl; msr = refl; srr0 = refl; gpr = refl; smi = refl; ext = refl; pm = refl })

advance_chunks-Keeps : (fuel n : ℕ) (c : Cpu) → Keeps c (advance_chunks fuel n c)
unfolding advance_chunks
advance_chunks-Keeps zero n c = record {
  pc = refl;
  msr = refl;
  srr0 = refl;
  gpr = refl;
  smi = refl;
  ext = refl;
  pm = refl;
}
advance_chunks-Keeps (suc fuel) n c =
    let part = if ltb 0x3f00_0000 n then 0x3f00_0000 else n in
    Keeps-if (n == 0) c _ _
      (record { pc = refl; msr = refl; srr0 = refl; gpr = refl; smi = refl; ext = refl; pm = refl })
      (Keeps-trans c (tick part c) _ (tick-Keeps part c)
        (advance_chunks-Keeps fuel (n - part) (tick part c)))

sync_clock-Keeps : (c : Cpu) → Keeps c (sync_clock c)
unfolding sync_clock clock_advance_cycles
sync_clock-Keeps c =
    Keeps-if (c.pend_cycles == 0) c _ _
      (record { pc = refl; msr = refl; srr0 = refl; gpr = refl; smi = refl; ext = refl; pm = refl })
      (Keeps-trans c (record c { pend_cycles = 0 }) _
        (record {
          pc = refl;
          msr = refl;
          srr0 = refl;
          gpr = refl;
          smi = refl;
          ext = refl;
          pm = refl;
        })
        (advance_chunks-Keeps _ c.pend_cycles (record c { pend_cycles = 0 })))

charge-Keeps : (n : ℕ) (c : Cpu) → Keeps c (charge n c)
unfolding charge
charge-Keeps n c =
    let charged = record c { pend_cycles = u64 (c.pend_cycles + n) } in
    let noted : Keeps c charged = record {
      pc = refl;
      msr = refl;
      srr0 = refl;
      gpr = refl;
      smi = refl;
      ext = refl;
      pm = refl;
    } in
    Keeps-if c.batching c _ _ noted (Keeps-trans c charged _ noted (sync_clock-Keeps charged))

-- The request that comes first.
abbrev pub first_request : Cpu → Option Exc
first_request c =
    if c.smi_pending
    then some smi
    else if c.ext_irq_line
    then some external
    else if c.dec_pending
    then some decrementer
    else if c.pm_pending
    then some perf_mon
    else none

-- The processor at the handler of an interrupt that it took in the state `s`.
pub record Interrupted (v : Exc) (s : CpuState) (e : Cpu) : Type 0 where
  pub handler : e.st.pc ≡ bit_or (if has s.msr Msr.ip then 0xfff0_0000 else 0) (vector_of v)
  pub disabled : has e.st.msr Msr.ee ≡ false
  pub return_address : e.st.srr0 ≡ s.pc
  pub registers : e.st.gpr ≡ s.gpr

-- What is left of the requests when an interrupt is taken. The external line is the controller's.
abbrev pub after_smi : Exc → Bool → Bool
after_smi smi b = false
after_smi _ b = b

abbrev pub after_decrementer : Exc → Bool → Bool
after_decrementer decrementer b = false
after_decrementer _ b = b

abbrev pub after_monitor : Exc → Bool → Bool
after_monitor perf_mon b = false
after_monitor _ b = b

-- The processor once the request of the interrupt is withdrawn, and no other; its clock has been charged
-- with the cycles of a step, which may let the decrementer ask.
pub record Answered (v : Exc) (c e : Cpu) : Type 0 where
  pub system : e.smi_pending ≡ after_smi v c.smi_pending
  pub line : e.ext_irq_line ≡ c.ext_irq_line
  pub monitor : e.pm_pending ≡ after_monitor v c.pm_pending
  pub charged :
      (r : Cpu) × (e ≡ charge c.extra_cycles r)
      × (r.dec_pending ≡ after_decrementer v c.dec_pending)

raise_exc-Answered :
    (v : Exc) (c c' : Cpu)
    → c'.smi_pending ≡ after_smi v c.smi_pending
    → c'.ext_irq_line ≡ c.ext_irq_line
    → c'.pm_pending ≡ after_monitor v c.pm_pending
    → c'.dec_pending ≡ after_decrementer v c.dec_pending
    → Answered v c (charge c.extra_cycles (raise_exc v c'.st.pc 0 c'))
unfolding raise_exc
raise_exc-Answered v c c' s l m d =
    let r = raise_exc v c'.st.pc 0 c' in
    let k = charge-Keeps c.extra_cycles r in
    record { system = k.smi ∙ s; line = k.ext ∙ l; monitor = k.pm ∙ m; charged = (r, refl, d) }

raise_exc-Interrupted :
    (v : Exc) (n : ℕ) (c : Cpu) → Interrupted v c.st (charge n (raise_exc v c.st.pc 0 c))
unfolding raise_exc exc_state
raise_exc-Interrupted v n c =
    let k = charge-Keeps n (raise_exc v c.st.pc 0 c) in
    let h = handler_msr-HandlerState v c.st.msr in
    record {
      handler =
          k.pc ∙ ap (λ (b : Bool). bit_or (if b then 0xfff0_0000 else 0) (vector_of v)) h.prefix;
      disabled = ap (λ (t : ℕ). has t Msr.ee) k.msr ∙ h.interrupts_off;
      return_address = k.srr0;
      registers = k.gpr;
    }

-- What the interrupts at the boundary do, `none` meaning that none is requested.
unfoldable pub Taken : Option Exc → Cpu → Option Cpu → Type 0
Taken none c o = o ≡ none
Taken (some v) c none = true ≡ false
Taken (some v) c (some e) = Interrupted v c.st e × Answered v c e

Taken-if :
    (b : Bool) (x y : Option Exc) (c : Cpu) (p q : Option Cpu)
    → Taken x c p
    → Taken y c q
    → Taken (if b then x else y) c (if b then p else q)
Taken-if true x y c p q h k = h
Taken-if false x y c p q h k = k

take_interrupt-Taken : (c : Cpu) → Taken (first_request c) c (take_interrupt c)
unfolding take_interrupt Taken raise_exc
take_interrupt-Taken c =
    let irq : Cpu = record c { ext_irqs = u64 (c.ext_irqs + 1) } in
    let dec : Cpu = record c { dec_pending = false; dec_irqs = u64 (c.dec_irqs + 1) } in
    Taken-if c.smi_pending (some smi) _ c (some _) _
      (
        raise_exc-Interrupted smi _ (record c { smi_pending = false }),
        raise_exc-Answered smi c (record c { smi_pending = false }) refl refl refl refl,
      )
      (Taken-if c.ext_irq_line (some external) _ c (some _) _
        (
          raise_exc-Interrupted external _ irq,
          raise_exc-Answered external c irq refl refl refl refl,
        )
        (Taken-if c.dec_pending (some decrementer) _ c (some _) _
          (
            raise_exc-Interrupted decrementer _ dec,
            raise_exc-Answered decrementer c dec refl refl refl refl,
          )
          (Taken-if c.pm_pending (some perf_mon) none c (some _) none
            (
              raise_exc-Interrupted perf_mon _ (record c { pm_pending = false }),
              raise_exc-Answered perf_mon c (record c { pm_pending = false }) refl refl refl refl,
            )
            refl)))

requested :
    (v : Exc) (c : Cpu) → has c.st.msr Msr.ee ≡ true → first_request c ≡ some v → wakes c ≡ true
requested v c enabled first = ground arith

and_false : (b : Bool) → (b && false) ≡ false
and_false true = refl
and_false false = refl

chosen {ℓ} : {A : Type ℓ} (b : Bool) (x y : A) → b ≡ true → (if b then x else y) ≡ x
chosen b x y h = rw h refl

chosen_else {ℓ} : {A : Type ℓ} (b : Bool) (x y : A) → b ≡ false → (if b then x else y) ≡ y
chosen_else b x y h = rw h refl

module _ {M : Type 0} (isa : Isa M) where
  -- A machine after an interrupt was taken.
  unfoldable Entered : Exc → Machine M → Machine M → Type 0
  Entered v m e = Interrupted v m.cpu.st e.cpu × Answered v m.cpu e.cpu × (e.mem ≡ m.mem)

  awake-Entered :
      (v : Exc) (m : Machine M) (o : Option Cpu)
      → Taken (some v) m.cpu o
      → Entered v m (after_interrupt isa m o)
  unfolding Taken Entered after_interrupt
  awake-Entered v m none h = ground arith
  awake-Entered v m (some c) h = (h.0, h.1, refl)

  -- A step of a processor with interrupts enabled takes the first request that is pending, in the order of
  -- system management, external, decrementer and performance monitor, asleep or not: it is then at the
  -- handler with external interrupts disabled, the address to return to is that of the instruction that was
  -- next, and no general register has changed. The request that was taken is withdrawn, but for the
  -- external line, and no other; the clock has then been charged with the extra cycles, in which the
  -- decrementer may ask. Memory has not been touched.
  pub step-Entered :
      (v : Exc) (m : Machine M)
      → has m.cpu.st.msr Msr.ee ≡ true
      → first_request m.cpu ≡ some v
      → Interrupted v m.cpu.st (step isa m).cpu
        × Answered v m.cpu (step isa m).cpu
        × ((step isa m).mem ≡ m.mem)
  unfolding step awake_step Entered
  step-Entered v m enabled first =
      let c : Cpu = record (m.cpu) { raised_this_step = false; napping = false } in
      let w : wakes m.cpu ≡ true = requested v m.cpu enabled first in
      let up : (m.cpu.napping && not (wakes m.cpu)) ≡ false = rw w (and_false m.cpu.napping) in
      let taken : Taken (some v) c (take_interrupt c) =
        subst (λ (o : Option Exc). Taken o c (take_interrupt c)) first (take_interrupt-Taken c) in
      let on : (if has m.cpu.st.msr Msr.ee then take_interrupt c else none) ≡ take_interrupt c =
        chosen _ _ _ enabled in
      let entered : Entered v (record m { cpu = c })
          (after_interrupt isa (record m { cpu = c }) (take_interrupt c)) =
        awake-Entered v (record m { cpu = c }) (take_interrupt c) taken in
      let a = entered.1 in
      subst
        (λ (e : Machine M). Interrupted v m.cpu.st e.cpu × Answered v m.cpu e.cpu × (e.mem ≡ m.mem))
        (sym (
          chosen_else (m.cpu.napping && not (wakes m.cpu)) _ (awake_step isa (record m { cpu = c }))
            up
          ∙ ap (after_interrupt isa (record m { cpu = c })) on))
        (
          entered.0,
          record { system = a.system; line = a.line; monitor = a.monitor; charged = a.charged },
          entered.2,
        )
