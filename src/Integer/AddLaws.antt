-- ===== src/Integer/AddLaws.antt =====
-- Addition and subtraction of core/src/exec_int.cpp against exact arithmetic: the sum, the carry, the
-- signed overflow, and 64-bit arithmetic by two instructions.
use open_power_mac.Prelude.{
  ℕ, ◌+◌, ◌-◌, ◌*◌, ◌/◌, ◌%◌, ◌^◌, ◌≤◌, ◌<◌, ◌≡◌, refl, ◌∙◌, ap, ap₂, ◌≢◌, Bool, true, not, ◌||◌,
  arith, bit_and, bit_xor, ◌==◌, ◌!=◌, if◌then◌else◌, leb, has, not32, update_same, update_other,
  Bool-cases, inl, inr,
}
use open_power_mac.Prelude.BitLaws.{bit, bit-and, bit-xor, bit_xor-lt, bit_and-le}
use open_power_mac.Prelude.Int.{pos, signed32, ◌+ℤ◌, eqb_ℤ}
use open_power_mac.Bits.{f_rt, f_ra, f_rb, f_oebit}
use open_power_mac.Cpu.{CpuState, ca, set_ca, set_ov}
use open_power_mac.Cpu.FlagLaws.{ov, so, ca-set_ca, ca-set_ov, ov-set_ov, so-set_ov, ov-set_ca}
use open_power_mac.Integer.Helpers.{set_gpr, addc3}
use open_power_mac.Integer.RecordLaws.{record_rc-gpr, record_rc-xer, Words}
use open_power_mac.Integer.Arith.{add_xo, carry_in, h_addc, h_adde, h_subfc, h_subfe}

-- The 32-bit result does not stand for the exact signed sum.
abbrev pub overflows : ℕ → ℕ → ℕ → Bool
overflows a b cin =
    not (eqb_ℤ (signed32 ((a + b + cin) % 2 ^ 32)) (signed32 a +ℤ signed32 b +ℤ pos cin))

top_bit : (x : ℕ) → x < 2 ^ 32 → (x / 2 ^ 31 != 0) ≡ (bit x 31 == 1)
unfolding bit
top_bit x h = ground arith

-- The sign test of the code decides the signed overflow.
pub overflow_test :
    (a b cin : ℕ)
    → a < 2 ^ 32
    → b < 2 ^ 32
    → cin ≤ 1
    → (bit_and (bit_xor a ((a + b + cin) % 2 ^ 32)) (bit_xor b ((a + b + cin) % 2 ^ 32)) / 2 ^ 31
        != 0)
      ≡ overflows a b cin
unfolding bit ◌+ℤ◌
overflow_test a b cin ha hb hc =
    let r = (a + b + cin) % 2 ^ 32 in
    let x = bit_and (bit_xor a r) (bit_xor b r) in
    let small : x < 2 ^ 32 =
      omega (arith, bit_and-le (bit_xor a r) (bit_xor b r), bit_xor-lt 32 a r ha (omega arith)) in
    top_bit x small
    ∙ ground (arith, bit-and (bit_xor a r) (bit_xor b r) 31, bit-xor a r 31, bit-xor b r 31)

-- What an addition of `a`, `b` and a carry leaves, with `r` its destination and `wants_ov` its OE bit.
pub record Added (a b cin r : ℕ) (want_ca wants_ov : Bool) (s t : CpuState) : Type 0 where
  pub value : t.gpr r ≡ (a + b + cin) % 2 ^ 32
  pub others : (q : ℕ) → q ≢ r → t.gpr q ≡ s.gpr q
  pub carry : ca t ≡ (if want_ca then leb (2 ^ 32) (a + b + cin) else ca s)
  pub overflow : ov t ≡ (if wants_ov then overflows a b cin else ov s)
  pub summary : so t ≡ (if wants_ov then overflows a b cin || so s else so s)

carry_of : (s : ℕ) → s < 2 ^ 33 → (s / 2 ^ 32 != 0) ≡ leb (2 ^ 32) s
carry_of s h = ground arith

-- The flags that `addc3` leaves.
module _ (a b cin i : ℕ) (want_ca : Bool) (s : CpuState) (ha : a < 2 ^ 32) (hb : b < 2 ^ 32)
    (hc : cin ≤ 1) where
  abbrev after : CpuState
  after = (addc3 a b cin want_ca true i s).1

  abbrev carried : CpuState
  carried = if want_ca then set_ca ((a + b + cin) / 2 ^ 32 != 0) s else s

  addc3-gpr : (q : ℕ) → after.gpr q ≡ s.gpr q
  unfolding addc3 set_ca set_ov
  addc3-gpr q = ground arith

  carried-ca : ca carried ≡ (if want_ca then leb (2 ^ 32) (a + b + cin) else ca s)
  carried-ca = elim (Bool-cases want_ca) [
    | inl asked ↦ rw asked (ca-set_ca _ s ∙ carry_of (a + b + cin) (omega arith))
    | inr plain ↦ rw plain
  ]

  carried-ov : (ov carried ≡ ov s) × (so carried ≡ so s)
  carried-ov = elim (Bool-cases want_ca) [
    | inl asked ↦ rw asked (ov-set_ca _ s)
    | inr plain ↦ rw plain (refl, refl)
  ]

  addc3_flags :
      (ca after ≡ (if want_ca then leb (2 ^ 32) (a + b + cin) else ca s))
      × (ov after ≡ (if f_oebit i != 0 then overflows a b cin else ov s))
      × (so after ≡ (if f_oebit i != 0 then overflows a b cin || so s else so s))
  unfolding addc3
  addc3_flags = elim (Bool-cases (f_oebit i != 0)) [
    | inl oe ↦ rw oe (
      ca-set_ov _ carried ∙ carried-ca,
      ov-set_ov _ carried ∙ overflow_test a b cin ha hb hc,
      so-set_ov _ carried
          ∙ ap (λ (t : Bool). t || so carried) (overflow_test a b cin ha hb hc)
          ∙ ap (λ (t : Bool). overflows a b cin || t) carried-ov.1,
    )
    | inr plain ↦ rw plain (carried-ca, carried-ov.0, carried-ov.1)
  ]

-- An XO-form addition of two words and a carry: the sum modulo 2 ^ 32 in rD and no other register
-- changed, CA the carry out of bit 0 where the form sets it, OV exactly when the signed sum does not
-- fit and SO sticky where the instruction has OE, and both unchanged where it has not.
pub add_xo-Added :
    (a b cin i : ℕ) (want_ca : Bool) (s : CpuState)
    → a < 2 ^ 32
    → b < 2 ^ 32
    → cin ≤ 1
    → Added a b cin (f_rt i) want_ca (f_oebit i != 0) s (add_xo a b cin want_ca i s)
unfolding ca
add_xo-Added a b cin i want_ca s ha hb hc =
    let flags = addc3_flags a b cin i want_ca s ha hb hc in
    let r = (addc3 a b cin want_ca true i s).0 in
    let before = after a b cin i want_ca s ha hb hc in
    let t = set_gpr (f_rt i) r before in
    let same = record_rc-xer i r t in
    let regs = record_rc-gpr i r t in
    record {
      value = ap (λ (g : ℕ → ℕ). g (f_rt i)) regs ∙ update_same before.gpr (f_rt i) r ∙ sum;
      others = λ q ne.
          ap (λ (g : ℕ → ℕ). g q) regs
          ∙ update_other before.gpr (f_rt i) q r ne
          ∙ addc3-gpr a b cin i want_ca s ha hb hc q;
      carry = ap (λ (x : ℕ). has x 0x2000_0000) same ∙ flags.0;
      overflow = ap (λ (x : ℕ). has x 0x4000_0000) same ∙ flags.1;
      summary = ap (λ (x : ℕ). has x 0x8000_0000) same ∙ flags.2;
    }
  where
    sum : (addc3 a b cin want_ca true i s).0 ≡ (a + b + cin) % 2 ^ 32
    sum = unfold addc3 in refl

carry_in-le : (s : CpuState) → carry_in s ≤ 1
carry_in-le s = ground arith

-- The two instructions of a 64-bit operation: the second reads no register that the first wrote, and
-- writes another one.
abbrev pub Paired : ℕ → ℕ → Type 0
Paired i j = (f_ra j ≢ f_rt i) × (f_rb j ≢ f_rt i) × (f_rt i ≢ f_rt j)

-- The value of two registers as a 64-bit word.
abbrev pub pair : CpuState → ℕ → ℕ → ℕ
pair s hi lo = s.gpr lo + 2 ^ 32 * s.gpr hi

abbrev carry_bit : ℕ → ℕ
carry_bit x = if leb (2 ^ 32) x then 1 else 0

-- Two words added with the carry between them are one addition of 64 bits.
two_words :
    (a b c d cin : ℕ)
    → a < 2 ^ 32
    → b < 2 ^ 32
    → c < 2 ^ 32
    → d < 2 ^ 32
    → cin ≤ 1
    → ((a + b + cin) % 2 ^ 32 + 2 ^ 32 * ((c + d + carry_bit (a + b + cin)) % 2 ^ 32)
        ≡ (a + b + cin + 2 ^ 32 * (c + d)) % 2 ^ 64)
      × (leb (2 ^ 32) (c + d + carry_bit (a + b + cin))
          ≡ leb (2 ^ 64) (a + b + cin + 2 ^ 32 * (c + d)))
two_words a b c d cin ha hb hc hd h = elim (Bool-cases (leb (2 ^ 32) (a + b + cin))) [
  | inl over ↦ let big : 2 ^ 32 ≤ a + b + cin = ground arith in rw over (omega arith, ground arith)
  | inr fits ↦
      let small : a + b + cin < 2 ^ 32 = ground arith in rw fits (omega arith, ground arith)
]

-- A word pair that an extended addition computes from the operands `x`, `y` (low) and `z`, `u` (high).
module _ (i j x y z u cin : ℕ) (s : CpuState) (hx : x < 2 ^ 32) (hy : y < 2 ^ 32) (hz : z < 2 ^ 32)
    (hu : u < 2 ^ 32) (hc : cin ≤ 1) (ne : f_rt i ≢ f_rt j) where
  abbrev low_done : CpuState
  low_done = add_xo x y cin true i s

  abbrev high_done : CpuState
  high_done = add_xo z u (carry_in low_done) true j low_done

  extended :
      (pair high_done (f_rt j) (f_rt i) ≡ (x + y + cin + 2 ^ 32 * (z + u)) % 2 ^ 64)
      × (ca high_done ≡ leb (2 ^ 64) (x + y + cin + 2 ^ 32 * (z + u)))
  extended =
      let low = add_xo-Added x y cin i true s hx hy hc in
      let high =
        add_xo-Added z u (carry_in low_done) j true low_done hz hu (carry_in-le low_done) in
      let k : carry_in low_done ≡ carry_bit (x + y + cin) =
        ap (λ (t : Bool). if t then 1 else 0) low.carry in
      let both = two_words x y z u cin hx hy hz hu hc in
      (
        ap₂ (λ (l h : ℕ). l + 2 ^ 32 * h) (high.others (f_rt i) ne ∙ low.value)
              (high.value ∙ ap (λ (t : ℕ). (z + u + t) % 2 ^ 32) k)
            ∙ both.0,
        high.carry ∙ ap (λ (t : ℕ). leb (2 ^ 32) (z + u + t)) k ∙ both.1,
      )

-- On registers that hold 32-bit words, `addc` of the low words and `adde` of the high words add
-- 64-bit numbers, where the first writes neither operand of the second nor its destination: the
-- sum modulo 2 ^ 64, with the carry out of it in CA.
pub addc-adde :
    (i j : ℕ) (s : CpuState)
    → Words s
    → Paired i j
    → (pair (h_adde j (h_addc i s)) (f_rt j) (f_rt i)
        ≡ (pair s (f_ra j) (f_ra i) + pair s (f_rb j) (f_rb i)) % 2 ^ 64)
      × (ca (h_adde j (h_addc i s))
          ≡ leb (2 ^ 64) (pair s (f_ra j) (f_ra i) + pair s (f_rb j) (f_rb i)))
unfolding h_addc h_adde
addc-adde i j s w (na, nb, nr) =
    let low = add_xo-Added (s.gpr (f_ra i)) (s.gpr (f_rb i)) 0 i true s (w _) (w _) (omega arith) in
    let wide =
      extended i j (s.gpr (f_ra i)) (s.gpr (f_rb i)) (s.gpr (f_ra j)) (s.gpr (f_rb j)) 0 s (w _)
        (w _) (w _) (w _) (omega arith) nr in
    rw (low.others (f_ra j) na, low.others (f_rb j) nb)
      (wide.0 ∙ omega arith, wide.1 ∙ ground arith)

-- On registers that hold 32-bit words, `subfc` of the low words and `subfe` of the high words
-- subtract 64-bit numbers, where the first writes neither operand of the second nor its
-- destination: rB - rA modulo 2 ^ 64, with CA set exactly when there is no borrow.
pub subfc-subfe :
    (i j : ℕ) (s : CpuState)
    → Words s
    → Paired i j
    → (pair (h_subfe j (h_subfc i s)) (f_rt j) (f_rt i)
        ≡ (pair s (f_rb j) (f_rb i) + 2 ^ 64 - pair s (f_ra j) (f_ra i)) % 2 ^ 64)
      × (ca (h_subfe j (h_subfc i s)) ≡ leb (pair s (f_ra j) (f_ra i)) (pair s (f_rb j) (f_rb i)))
unfolding h_subfc h_subfe
subfc-subfe i j s w (na, nb, nr) =
    let low =
      add_xo-Added (not32 (s.gpr (f_ra i))) (s.gpr (f_rb i)) 1 i true s (omega arith) (w _)
        (omega arith) in
    let wide =
      extended i j (not32 (s.gpr (f_ra i))) (s.gpr (f_rb i)) (not32 (s.gpr (f_ra j)))
        (s.gpr (f_rb j)) 1 s (omega arith) (w _) (omega arith) (w _) (omega arith) nr in
    let ha = w (f_ra i) in
    let hc = w (f_ra j) in
    rw (low.others (f_ra j) na, low.others (f_rb j) nb)
      (wide.0 ∙ omega arith, wide.1 ∙ ground arith)
