-- ===== src/Clock/Tick.antt =====
-- Cpu::tick and its callers (core/include/opm/cpu.hpp). The shift that tick keeps from call to call is
-- computed anew here: it depends on the divisor alone, but for a divisor of 0, where the code goes by the
-- divisor before. Taken here is the shift of 0 of a processor that has had no other divisor.
use open_power_mac.Prelude.{
  ℕ, zero, suc, ◌+◌, ◌-◌, ◌*◌, ◌/◌, ◌^◌, true, not, bit_and, if◌then◌else◌, ◌==◌, ltb, has, u32,
  u64, sub32, ◌>>>◌, ◌&&◌, ◌||◌,
}
use open_power_mac.Cpu.{Cpu}

-- The exponent of the divisor if it is a power of two below 2 ^ 32, from `k` on with `n` left to try.
unfoldable pub shift_from : ℕ → ℕ → ℕ → ℕ
shift_from zero k d = 32
shift_from (suc n) k d = let rest = shift_from n (suc k) d in if d == 2 ^ k then k else rest

unfoldable pub tb_shift : ℕ → ℕ
tb_shift d = shift_from 32 0 d

-- The ticks in `a` cycles, and the cycles that are left over.
unfoldable pub whole_ticks : ℕ → ℕ → ℕ × ℕ
whole_ticks d a =
    if d == 0
    then (a, a)
    else if ltb (tb_shift d) 32
    then (a >>> tb_shift d, bit_and a (d - 1))
    else (a / d, a - a / d * d)

-- `n` ticks of the time base and the decrementer, with `left` cycles kept.
unfoldable pub advance : ℕ → ℕ → Cpu → Cpu
advance n left c =
    let old = c.st.dec in
    record c {
      cycle_accum = left;
      dec_pending = if not (has old 0x8000_0000) && ltb old n then true else c.dec_pending;
      st = record (c.st) { tb = u64 (c.st.tb + n); dec = sub32 old n };
    }

unfoldable pub tick : ℕ → Cpu → Cpu
tick cycles c =
    let a = u32 (c.cycle_accum + cycles) in
    let (n, left) = whole_ticks c.cycles_per_tb_tick a in
    if ltb a c.cycles_per_tb_tick then record c { cycle_accum = a } else advance n left c

-- The chunks of a long advance; the fuel is more than the chunks that the cycles make.
unfoldable pub advance_chunks : ℕ → ℕ → Cpu → Cpu
advance_chunks zero cycles c = c
advance_chunks (suc fuel) cycles c =
    let part = if ltb 0x3f00_0000 cycles then 0x3f00_0000 else cycles in
    let rest = advance_chunks fuel (cycles - part) (tick part c) in if cycles == 0 then c else rest

unfoldable pub clock_advance_cycles : ℕ → Cpu → Cpu
clock_advance_cycles cycles c = advance_chunks (suc (cycles / 0x3f00_0000 + 1)) cycles c

unfoldable pub sync_clock : Cpu → Cpu
sync_clock c =
    if c.pend_cycles == 0
    then c
    else clock_advance_cycles c.pend_cycles (record c { pend_cycles = 0 })

unfoldable pub charge : ℕ → Cpu → Cpu
charge cycles c =
    let c' = record c { pend_cycles = u64 (c.pend_cycles + cycles) } in
    if c.batching then c' else sync_clock c'

unfoldable pub tb_now : Cpu → ℕ
tb_now c =
    if c.pend_cycles == 0 || c.cycles_per_tb_tick == 0
    then c.st.tb
    else u64 (c.st.tb + u64 (c.cycle_accum + c.pend_cycles) / c.cycles_per_tb_tick)

-- The ticks until the decrementer asks; ~0 when it has gone below zero already.
unfoldable pub tb_until_dec : Cpu → ℕ
tb_until_dec c = if has c.st.dec 0x8000_0000 then 2 ^ 64 - 1 else u64 (c.st.dec + 1)

-- The steps of a number of cycles each until the decrementer asks.
unfoldable pub steps_until_dec : ℕ → Cpu → ℕ
steps_until_dec per_step c =
    let need = u64 (c.st.dec + 1) in
    let total = u64 (need * c.cycles_per_tb_tick) in
    let cycles = if ltb c.cycle_accum total then total - c.cycle_accum else 0 in
    if has c.st.dec 0x8000_0000 || per_step == 0 || c.cycles_per_tb_tick == 0
    then 2 ^ 64 - 1
    else (cycles + per_step - 1) / per_step
