-- ===== src/Clock/TickLaws.antt =====
-- That the clock may be advanced in one step or in several (core/include/opm/cpu.hpp).
use open_power_mac.Prelude.{
  ℕ, zero, suc, ◌+◌, ◌-◌, ◌*◌, ◌/◌, ◌%◌, ◌^◌, ◌≤◌, ◌<◌, ◌≡◌, refl, ◌∙◌, sym, ap, Bool, false, not,
  bit_and, if◌then◌else◌, ◌==◌, ltb, has, u32, arith, Bool-cases, inl, inr, ◌&&◌, ◌||◌,
}
use open_power_mac.Prelude.BitLaws.{bit, has-bit, bit_and_low}
use open_power_mac.Cpu.{Cpu}
use open_power_mac.Clock.Tick.{
  shift_from, tb_shift, whole_ticks, advance, tick, advance_chunks, clock_advance_cycles,
}
use native.Mathlib.Nat.{div-add-mod, div-eq_of_lt, mod-eq_of_lt, mul-add-div, mul-add-mod_self_left}

shift_from-power : (n k d : ℕ) → shift_from n k d < 32 → d ≡ 2 ^ shift_from n k d
unfolding shift_from
shift_from-power zero k d h = ground arith
shift_from-power (suc n) k d h = elim (Bool-cases (d == 2 ^ k)) [
  | inl found ↦ rw found (ground arith)
  | inr next ↦
      let step : shift_from (suc n) k d ≡ shift_from n (suc k) d = rw (shift_from, next) refl in
      rw step (shift_from-power n (suc k) d (omega arith))
]

-- Whichever way it is computed, the ticks are the quotient and the rest is the remainder.
whole_ticks_lem : (d a : ℕ) → 0 < d → ((whole_ticks d a).0 ≡ a / d) × ((whole_ticks d a).1 ≡ a % d)
unfolding whole_ticks tb_shift
whole_ticks_lem d a h =
    let some_d : (d == 0) ≡ false = ground arith in
    elim (Bool-cases (ltb (tb_shift d) 32)) [
      | inl power ↦
          let e : d ≡ 2 ^ tb_shift d = shift_from-power 32 0 d (ground arith) in
          rw (some_d, power)
            (
              ap (λ (t : ℕ). a / t) (sym e),
              ap (λ (t : ℕ). bit_and a (t - 1)) e
                  ∙ bit_and_low (tb_shift d) a
                  ∙ ap (λ (t : ℕ). a % t) (sym e),
            )
      | inr other ↦ rw (some_d, other) (refl, omega (arith, div-add-mod a d))
    ]

-- The registers are machine words.
pub record ClockWords (c : Cpu) : Type 0 where
  pub accum : c.cycle_accum < 2 ^ 32
  pub divisor : 0 < c.cycles_per_tb_tick
  pub tb : c.st.tb < 2 ^ 64
  pub dec : c.st.dec < 2 ^ 32

-- The clock after `cycles`, by quotient and remainder.
pub record Ticked (cycles : ℕ) (c e : Cpu) : Type 0 where
  pub accum : e.cycle_accum ≡ (c.cycle_accum + cycles) % c.cycles_per_tb_tick
  pub tb : e.st.tb ≡ (c.st.tb + (c.cycle_accum + cycles) / c.cycles_per_tb_tick) % 2 ^ 64
  pub dec :
      e.st.dec ≡ (c.st.dec + 2 ^ 32 - (c.cycle_accum + cycles) / c.cycles_per_tb_tick) % 2 ^ 32
  pub pending : e.dec_pending ≡ (
      c.dec_pending
      || (ltb c.st.dec (2 ^ 31) && ltb c.st.dec ((c.cycle_accum + cycles) / c.cycles_per_tb_tick)))
  pub divisor : e.cycles_per_tb_tick ≡ c.cycles_per_tb_tick

pub sign_bit : (x : ℕ) → x < 2 ^ 32 → not (has x 0x8000_0000) ≡ ltb x (2 ^ 31)
unfolding bit
sign_bit x h = ground (arith, has-bit 31 x)

small_division : (a d : ℕ) → a < d → (a / d ≡ 0) × (a % d ≡ a)
small_division a d h = (div-eq_of_lt h, mod-eq_of_lt h)

pub tick-Ticked :
    (cycles : ℕ) (c : Cpu)
    → ClockWords c
    → c.cycle_accum + cycles < 2 ^ 32
    → Ticked cycles c (tick cycles c)
unfolding tick advance
tick-Ticked cycles c w fits =
    let d = c.cycles_per_tb_tick in
    let a = c.cycle_accum + cycles in
    let whole : u32 a ≡ a = omega arith in
    elim (Bool-cases (ltb a d)) [
      | inl early ↦
          let (q, r) = small_division a d (ground arith) in
          rw (whole, early)
            record {
              accum = rw r refl;
              tb = rw q (omega (arith, w.tb));
              dec = rw q (omega (arith, w.dec));
              pending = rw q (ground arith);
              divisor = refl;
            }
      | inr late ↦
          let (ticks, left) = whole_ticks_lem d a w.divisor in
          rw (whole, late)
            record {
              accum = left;
              tb = ap (λ (n : ℕ). (c.st.tb + n) % 2 ^ 64) ticks;
              dec = ap (λ (n : ℕ). (c.st.dec + 2 ^ 32 - n) % 2 ^ 32) ticks;
              pending = rw (ticks, sign_bit c.st.dec w.dec) (ground arith);
              divisor = refl;
            }
    ]

-- The quotient and the remainder of two advances, one after the other.
two_divisions :
    (x b d : ℕ) → 0 < d → (x / d + (x % d + b) / d ≡ (x + b) / d) × ((x % d + b) % d ≡ (x + b) % d)
two_divisions x b d h =
    let rest : d * (x / d) + x % d ≡ x = div-add-mod x d in
    let shape : x + b ≡ d * (x / d) + (x % d + b) = omega arith in
    (
      sym (ap (λ (t : ℕ). t / d) shape ∙ mul-add-div h (x / d) (x % d + b)),
      sym (ap (λ (t : ℕ). t % d) shape ∙ mul-add-mod_self_left d (x / d) (x % d + b)),
    )

-- The decrementer over m and then n ticks, where they are fewer than half of its range.
two_counts :
    (dec m n : ℕ)
    → dec < 2 ^ 32
    → m + n < 2 ^ 31
    → (((dec + 2 ^ 32 - m) % 2 ^ 32 + 2 ^ 32 - n) % 2 ^ 32 ≡ (dec + 2 ^ 32 - (m + n)) % 2 ^ 32)
      × ((pend : Bool)
          → ((pend || (ltb dec (2 ^ 31) && ltb dec m))
              || (ltb ((dec + 2 ^ 32 - m) % 2 ^ 32) (2 ^ 31)
                  && ltb ((dec + 2 ^ 32 - m) % 2 ^ 32) n))
            ≡ (pend || (ltb dec (2 ^ 31) && ltb dec (m + n))))
two_counts dec m n h few = (omega arith, λ pend. ground arith)

-- What the guest sees of the clock.
pub record SameClock (c e : Cpu) : Type 0 where
  pub tb : c.st.tb ≡ e.st.tb
  pub dec : c.st.dec ≡ e.st.dec
  pub pending : c.dec_pending ≡ e.dec_pending
  pub accum : c.cycle_accum ≡ e.cycle_accum

tick-ClockWords :
    (a : ℕ) (c : Cpu) → ClockWords c → c.cycle_accum + a < 2 ^ 32 → ClockWords (tick a c)
tick-ClockWords a c w fits =
    let t = tick-Ticked a c w fits in
    record {
      accum = rw t.accum (omega (arith, div-add-mod (c.cycle_accum + a) c.cycles_per_tb_tick));
      divisor = rw t.divisor w.divisor;
      tb = rw t.tb (omega arith);
      dec = rw t.dec (omega arith);
    }

-- The clock advanced by `a` cycles and then by `b` is the clock advanced by both at once: time
-- base, decrementer, its interrupt request and the cycles left over, for registers that are
-- machine words, sums within the accumulator and fewer ticks than half the decrementer's range.
pub tick_add :
    (a b : ℕ) (c : Cpu)
    → ClockWords c
    → c.cycle_accum + a + b < 2 ^ 32
    → (c.cycle_accum + a + b) / c.cycles_per_tb_tick < 2 ^ 31
    → SameClock (tick b (tick a c)) (tick (a + b) c)
tick_add a b c w fits few =
    let d = c.cycles_per_tb_tick in
    let x = c.cycle_accum + a in
    let first = tick-Ticked a c w (omega arith) in
    let left : x % d ≤ x = omega (arith, div-add-mod x d) in
    let room : (tick a c).cycle_accum + b < 2 ^ 32 = rw first.accum (omega arith) in
    let second = tick-Ticked b (tick a c) (tick-ClockWords a c w (omega arith)) room in
    let both = tick-Ticked (a + b) c w (omega arith) in
    let sum : c.cycle_accum + (a + b) ≡ x + b = omega arith in
    let (q, r) = two_divisions x b d w.divisor in
    let (counts, requests) = two_counts c.st.dec (x / d) ((x % d + b) / d) w.dec (rw q few) in
    record {
      tb = rw (second.tb, first.tb, first.accum, first.divisor, both.tb, sum) (omega (arith, q));
      dec = rw (second.dec, first.dec, first.accum, first.divisor, both.dec, sum, counts, q) refl;
      pending =
          rw
            (
              second.pending,
              first.pending,
              first.dec,
              first.accum,
              first.divisor,
              both.pending,
              sum,
              requests c.dec_pending,
              q,
            )
            refl;
      accum = rw (second.accum, first.accum, first.divisor, both.accum, sum) r;
    }

advance_chunks_enough :
    (f g cycles : ℕ) (c : Cpu)
    → cycles + 0x3f00_0000 ≤ f * 0x3f00_0000
    → cycles + 0x3f00_0000 ≤ g * 0x3f00_0000
    → advance_chunks f cycles c ≡ advance_chunks g cycles c
unfolding advance_chunks
advance_chunks_enough zero g cycles c hf hg = let no : 1 ≤ 0 = omega arith in elim no [ ]
advance_chunks_enough (suc f) zero cycles c hf hg = let no : 1 ≤ 0 = omega arith in elim no [ ]
advance_chunks_enough (suc f) (suc g) cycles c hf hg = elim (Bool-cases (cycles == 0)) [
  | inl over ↦ rw over refl
  | inr more ↦
      let part = if ltb 0x3f00_0000 cycles then 0x3f00_0000 else cycles in
      let next : cycles - part + 0x3f00_0000 ≤ f * 0x3f00_0000 = ground arith in
      let next' : cycles - part + 0x3f00_0000 ≤ g * 0x3f00_0000 = ground arith in
      rw more (advance_chunks_enough f g (cycles - part) (tick part c) next next')
]

-- The chunks of a long advance come to an end: whatever more fuel is given, one chunk above what the cycles
-- need, the clock is the one that `clock_advance_cycles` gives.
pub clock_advance_cycles-enough :
    (f cycles : ℕ) (c : Cpu)
    → cycles + 0x3f00_0000 ≤ f * 0x3f00_0000
    → advance_chunks f cycles c ≡ clock_advance_cycles cycles c
unfolding clock_advance_cycles
clock_advance_cycles-enough f cycles c h =
    advance_chunks_enough f (suc (cycles / 0x3f00_0000 + 1)) cycles c h (omega arith)
