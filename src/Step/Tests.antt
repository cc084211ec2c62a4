-- ===== src/Step/Tests.antt =====
-- A step that takes an interrupt.
use open_power_mac.Prelude.{ℕ, ◌≡◌, refl, true, false, none, some}
use open_power_mac.Cpu.{external}
use open_power_mac.Cpu.Samples.{sample, sample_state}
use open_power_mac.Mmu.{Machine}
use open_power_mac.Step.Execute.{Row, Isa, step}
use open_power_mac.Step.InterruptLaws.{Interrupted, Answered, step-Entered}

-- No instruction is known.
abbrev no_row : Row
no_row = record {
  illegal = false;
  privileged = false;
  needs_fp = false;
  needs_vec = false;
  is_rfi = false;
  is_isync = false;
  is_branch = false;
}

abbrev empty_isa : Isa ℕ
empty_isa = record {
  row = λ r. no_row;
  handler = λ r. none;
  fetch_decoded = λ ea m. (some (0, none), m);
}

-- Asleep, with the external line up and a decrementer request behind it.
abbrev requested : Machine ℕ
requested = record {
  cpu = record sample {
    st = record sample_state { msr = 0x9040 };
    ext_irq_line = true;
    dec_pending = true;
    napping = true;
  };
  mem = 7;
}

step-Entered_example :
    Interrupted external requested.cpu.st (step empty_isa requested).cpu
    × Answered external requested.cpu (step empty_isa requested).cpu
    × ((step empty_isa requested).mem ≡ requested.mem)
step-Entered_example = step-Entered empty_isa external requested refl refl
