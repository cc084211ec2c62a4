-- ===== src/Cpu/ExceptionLaws.antt =====
-- What an exception does to the machine (core/src/exceptions.cpp), and what a return from it finds.
use open_power_mac.Prelude.{
  ℕ, ◌-◌, ◌^◌, ◌<◌, ◌≡◌, refl, ◌∙◌, ap, min, max, false, arith, if◌then◌else◌, has, ◌==◌,
  Bool-cases, inl, inr,
}
use open_power_mac.Prelude.BitLaws.{bit, bit-and, bit-or, bit-complement, bit-le-one, has-bit}
use open_power_mac.Cpu.Msr
use open_power_mac.Cpu.State.{Exc}
use open_power_mac.Cpu.Exceptions.{handler_msr, is_machine_check}

-- What a handler's machine state keeps of the interrupted one.
pub record HandlerState (v : Exc) (m h : ℕ) : Type 0 where
  pub user_off : has h Msr.pr ≡ false
  pub interrupts_off : has h Msr.ee ≡ false
  pub translation_off : (has h Msr.ir ≡ false) × (has h Msr.dr ≡ false)
  pub machine_check_mask : has h Msr.me ≡ (if is_machine_check v then false else has m Msr.me)
  pub prefix : has h Msr.ip ≡ has m Msr.ip
  pub endian : has h Msr.le ≡ has m Msr.ile
  pub interrupt_endian : has h Msr.ile ≡ has m Msr.ile

handler_bits :
    (v : Exc) (m k : ℕ)
    → k < 32
    → bit (handler_msr v m) k
      ≡ min
          (max (min (bit m k) (bit 0x1_1040 k)) (if has m Msr.ile then bit 1 k else 0))
          (if is_machine_check v then 1 - bit 0x1000 k else 1)
unfolding handler_msr
handler_bits v m k h = elim (Bool-cases (has m Msr.ile)) [
  | inl little ↦ rw little (elim (Bool-cases (is_machine_check v)) [
    | inl mc ↦ rw (mc, bit-and, bit-or, bit-and, bit-complement 32 0x1000 k (omega arith) h) refl
    | inr other ↦ rw (other, bit-or, bit-and) (omega (arith, bit-le-one m k, bit-le-one 1 k))
  ])
  | inr big ↦ rw big (elim (Bool-cases (is_machine_check v)) [
    | inl mc ↦ rw (mc, bit-and, bit-and, bit-complement 32 0x1000 k (omega arith) h) (omega arith)
    | inr other ↦ rw (other, bit-and) (omega (arith, bit-le-one m k))
  ])
]

-- The handler's bit at a position where the kept bits are known.
module _ (v : Exc) (m : ℕ) where
  abbrev started : ℕ
  started = handler_msr v m

  handler_has :
      (k kept low mc : ℕ)
      → k < 32
      → bit 0x1_1040 k ≡ kept
      → bit 1 k ≡ low
      → bit 0x1000 k ≡ mc
      → has started (2 ^ k) ≡ (
          min
            (max (min (bit m k) kept) (if has m Msr.ile then low else 0))
            (if is_machine_check v then 1 - mc else 1)
          == 1)
  handler_has k kept low mc lt e f g =
      has-bit k started ∙ ap (λ (t : ℕ). t == 1) (handler_bits v m k lt ∙ rw (e, f, g) refl)

  -- A handler starts in supervisor mode with external interrupts and both translations off, the machine
  -- check enable kept but for a machine check, the exception prefix kept, and the endianness that the
  -- interrupted state chose for interrupts.
  pub handler_msr-HandlerState : HandlerState v m started
  unfolding bit
  handler_msr-HandlerState = record {
    user_off = handler_has 14 0 0 0 (omega arith) refl refl refl ∙ ground arith;
    interrupts_off = handler_has 15 0 0 0 (omega arith) refl refl refl ∙ ground arith;
    translation_off = (
      handler_has 5 0 0 0 (omega arith) refl refl refl ∙ ground arith,
      handler_has 4 0 0 0 (omega arith) refl refl refl ∙ ground arith,
    );
    machine_check_mask =
        handler_has 12 1 0 1 (omega arith) refl refl refl
        ∙ ground (arith, has-bit 12 m, bit-le-one m 12);
    prefix =
        handler_has 6 1 0 0 (omega arith) refl refl refl
        ∙ ground (arith, has-bit 6 m, bit-le-one m 6);
    endian = handler_has 0 0 1 0 (omega arith) refl refl refl ∙ ground arith;
    interrupt_endian =
        handler_has 16 1 0 0 (omega arith) refl refl refl
        ∙ ground (arith, has-bit 16 m, bit-le-one m 16);
  }
