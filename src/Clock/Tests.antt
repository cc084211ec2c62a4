-- ===== src/Clock/Tests.antt =====
-- Runs of the clock.
use open_power_mac.Prelude.{◌+◌, ◌*◌, ◌≤◌, ◌≡◌, ◌↔◌, true, refl, arith}
use open_power_mac.Cpu.Samples.{sample}
use open_power_mac.Clock.Tick.{
  shift_from, tb_shift, whole_ticks, advance, tick, advance_chunks, clock_advance_cycles,
  steps_until_dec,
}
use open_power_mac.Clock.Deadline.{steps_until_dec_exact}
use open_power_mac.Clock.TickLaws.{ClockWords, SameClock, tick_add, clock_advance_cycles-enough}

ticked : (tick 10 sample).st.dec ≡ 98
unfolding shift_from tb_shift whole_ticks advance tick
ticked = refl

sample-ClockWords : ClockWords sample
sample-ClockWords = record {
  accum = omega arith;
  divisor = omega arith;
  tb = omega arith;
  dec = omega arith;
}

tick_add_example : SameClock (tick 11 (tick 7 sample)) (tick (7 + 11) sample)
tick_add_example = tick_add 7 11 sample sample-ClockWords (omega arith) (omega arith)

clock_advance_cycles-enough_example :
    advance_chunks 5 0x4000_0000 sample ≡ clock_advance_cycles 0x4000_0000 sample
clock_advance_cycles-enough_example = clock_advance_cycles-enough 5 0x4000_0000 sample (omega arith)

steps_until_dec_exact_example :
    ((tick (40 * 10) sample).dec_pending ≡ true) ↔ (steps_until_dec 10 sample ≤ 40)
steps_until_dec_exact_example =
    steps_until_dec_exact 10 40 sample sample-ClockWords (omega arith) refl (omega arith)
      (omega arith) (omega arith)
