-- ===== src/Clock/Deadline.antt =====
-- When the decrementer will ask (stepsUntilDec and tbUntilDec of core/include/opm/cpu.hpp), against the
-- clock itself.
use open_power_mac.Prelude.{
  ℕ, suc, ◌+◌, ◌-◌, ◌*◌, ◌/◌, ◌^◌, ◌≤◌, ◌<◌, ◌≡◌, ◌↔◌, refl, sym, ap, ◌∙◌, Bool, true, false,
  if◌then◌else◌, ltb, has, arith, ◌&&◌, ◌||◌, ltb→lt, lt→ltb, ◌==◌, u64, not, Bool-cases, inl, inr,
  ltb→le, ==_ne,
}
use native.Mathlib.Nat.{le-div_iff_mul-le, div-lt_iff_lt-mul, mod-eq_of_lt, mul-le-mul_left}
use open_power_mac.Cpu.{Cpu}
use open_power_mac.Clock.Tick.{tick, steps_until_dec}
use open_power_mac.Clock.TickLaws.{ClockWords, tick-Ticked, sign_bit}

-- The cycles that are left.
cycles_left : ℕ → ℕ → ℕ
cycles_left accum total = if ltb accum total then total - accum else 0

cycles_left_enough : (accum total x : ℕ) → (cycles_left accum total ≤ x) ↔ (total ≤ accum + x)
unfolding cycles_left
cycles_left_enough accum total x = elim (Bool-cases (ltb accum total)) [
  | inl early ↦
      let h = ltb→lt accum total early in rw early ((λ l. omega arith), (λ l. omega arith))
  | inr late ↦ let h = ltb→le accum total late in rw late ((λ l. omega arith), (λ l. omega arith))
]

flipped : (b : Bool) → not b ≡ true → b ≡ false
flipped true h = sym h
flipped false h = refl

module _ (per_step n : ℕ) (c : Cpu) (w : ClockWords c) (soon : c.st.dec < 2 ^ 31)
    (some_step : 0 < per_step) (narrow : c.cycles_per_tb_tick < 2 ^ 32) where
  steps_value :
      steps_until_dec per_step c
      ≡ (cycles_left c.cycle_accum ((c.st.dec + 1) * c.cycles_per_tb_tick) + per_step - 1)
        / per_step
  unfolding steps_until_dec cycles_left
  steps_value =
      let positive : has c.st.dec 0x8000_0000 ≡ false =
        flipped (has c.st.dec 0x8000_0000)
          (sign_bit c.st.dec w.dec ∙ lt→ltb c.st.dec (2 ^ 31) soon) in
      let no_zero : (per_step == 0) ≡ false = ==_ne per_step 0 (λ e. absurd (omega arith)) in
      let divides : (c.cycles_per_tb_tick == 0) ≡ false =
        ==_ne c.cycles_per_tb_tick 0 (λ e. absurd (omega (arith, w.divisor))) in
      let need : u64 (c.st.dec + 1) ≡ c.st.dec + 1 = mod-eq_of_lt (omega arith) in
      let room : (c.st.dec + 1) * c.cycles_per_tb_tick ≤ (c.st.dec + 1) * 2 ^ 32 =
        mul-le-mul_left (c.st.dec + 1) (omega arith) in
      let total : u64 ((c.st.dec + 1) * c.cycles_per_tb_tick)
          ≡ (c.st.dec + 1) * c.cycles_per_tb_tick =
        mod-eq_of_lt (omega arith) in
      rw (positive, no_zero, divides, need, total) refl

  steps_enough :
      (steps_until_dec per_step c ≤ n)
      ↔ ((c.st.dec + 1) * c.cycles_per_tb_tick ≤ c.cycle_accum + n * per_step)
  steps_enough =
      let left = cycles_left c.cycle_accum ((c.st.dec + 1) * c.cycles_per_tb_tick) in
      let enough =
        cycles_left_enough c.cycle_accum ((c.st.dec + 1) * c.cycles_per_tb_tick) (n * per_step) in
      let next : suc n * per_step ≡ n * per_step + per_step = omega arith in
      (
        λ h.
            let below : (left + per_step - 1) / per_step < suc n = omega (arith, h, steps_value) in
            let product = (div-lt_iff_lt-mul some_step).0 below in
            enough.0 (omega (arith, product, next)),
        λ h.
            let fits : left ≤ n * per_step = enough.1 h in
            let below : (left + per_step - 1) / per_step < suc n =
              (div-lt_iff_lt-mul some_step).1 (omega (arith, fits, next)) in
            omega (arith, below, steps_value),
      )

-- The deadline is exact: with the decrementer not yet below zero and no request pending, `n` steps of
-- a number of cycles each, charged to the clock at once, raise the decrementer's request if and only if `n`
-- is no less than `stepsUntilDec`. The registers are words, and the cycles fit the 32 bits of `tick`.
pub steps_until_dec_exact :
    (per_step n : ℕ) (c : Cpu)
    → ClockWords c
    → c.st.dec < 2 ^ 31
    → c.dec_pending ≡ false
    → 0 < per_step
    → c.cycles_per_tb_tick < 2 ^ 32
    → c.cycle_accum + n * per_step < 2 ^ 32
    → ((tick (n * per_step) c).dec_pending ≡ true) ↔ (steps_until_dec per_step c ≤ n)
steps_until_dec_exact per_step n c w soon quiet some_step narrow fits =
    let t = tick-Ticked (n * per_step) c w fits in
    let ticks : ℕ = (c.cycle_accum + n * per_step) / c.cycles_per_tb_tick in
    let asks : (tick (n * per_step) c).dec_pending ≡ ltb c.st.dec ticks =
      t.pending
      ∙ ap (λ (b : Bool). b || (ltb c.st.dec (2 ^ 31) && ltb c.st.dec ticks)) quiet
      ∙ ap (λ (b : Bool). b && ltb c.st.dec ticks) (lt→ltb c.st.dec (2 ^ 31) soon) in
    let enough = steps_enough per_step n c w soon some_step narrow in
    let product =
      le-div_iff_mul-le {x = c.st.dec + 1} {y = c.cycle_accum + n * per_step} w.divisor in
    (
      λ h.
          let late : c.st.dec < ticks = ltb→lt c.st.dec ticks (sym asks ∙ h) in
          enough.1 (product.0 (omega arith)),
      λ h. let late = product.1 (enough.0 h) in asks ∙ lt→ltb c.st.dec ticks (omega (arith, late)),
    )
