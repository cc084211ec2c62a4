-- ===== src/Integer/CompareLaws.antt =====
-- What a comparison of core/src/exec_int.cpp leaves in the condition register.
use open_power_mac.Prelude.{
  ℕ, zero, suc, ◌+◌, ◌-◌, ◌*◌, ◌/◌, ◌%◌, ◌^◌, ◌≤◌, ◌<◌, ◌≡◌, refl, ◌∙◌, sym, ap, Bool, true, false,
  bit_and, bit_or, if◌then◌else◌, shl32, not32, arith, dec_lt, dec_eq, ltb, ◌>>>◌, ◌==◌,
}
use open_power_mac.Prelude.BitLaws.{
  bit, bit-and, bit-or, bit-complement, bit-le-one, bit-shl_low, bit-shl_high, bit-shr, bit-mod_low,
  bit_above, bit_ext_below, bit_and_low, bit_or_disjoint,
}
use open_power_mac.Prelude.Int.{ℤ, ltb_ℤ}
use open_power_mac.Cpu.{CpuState, set_cr_field, cr_field}
use open_power_mac.Integer.Compare.{cmp_s, cmp_u}

-- Bit p of x << sh within a word.
shifted_bit : (x sh p : ℕ) → p < 32 → bit (shl32 x sh) p ≡ (if ltb p sh then 0 else bit x (p - sh))
shifted_bit x sh p hp = bit-mod_low (x * 2 ^ sh) 32 p hp ∙ elim (dec_lt p sh) [
  | yes low ↦ let t : ltb p sh ≡ true = ground arith in rw (t, bit-shl_low x sh p low) refl
  | no high ↦
      let t : ltb p sh ≡ false = ground arith in
      let at : p ≡ sh + (p - sh) = omega arith in
      rw t (ap (bit (x * 2 ^ sh)) at ∙ bit-shl_high x sh (p - sh))
]

nibble_bit : (x j : ℕ) → bit (bit_and x 0xf) j ≡ (if ltb j 4 then bit x j else 0)
nibble_bit x j = rw (bit_and_low 4 x) (elim (dec_lt j 4) [
  | yes low ↦ let t : ltb j 4 ≡ true = ground arith in rw (t, bit-mod_low x 4 j low) refl
  | no high ↦
      let t : ltb j 4 ≡ false = ground arith in
      rw (t, bit_above 4 (x % 2 ^ 4) j (omega arith) (omega arith)) refl
])

ones_bit : (j : ℕ) → bit 0xf j ≡ (if ltb j 4 then 1 else 0)
unfolding bit
ones_bit zero = refl
ones_bit (suc zero) = refl
ones_bit (suc (suc zero)) = refl
ones_bit (suc (suc (suc zero))) = refl
ones_bit (suc (suc (suc (suc j)))) =
    let t : ltb (suc (suc (suc (suc j)))) 4 ≡ false = ground arith in
    rw (t, bit_above 4 0xf (suc (suc (suc (suc j)))) (omega arith) (omega arith)) refl

-- A bit of the condition register after a field was set.
set_field_bit :
    (f nib p : ℕ) (s : CpuState)
    → p < 32
    → f ≤ 7
    → bit (set_cr_field f nib s).cr p ≡ (
        if ltb p ((7 - f) * 4)
        then bit s.cr p
        else if ltb (p - (7 - f) * 4) 4
        then bit nib (p - (7 - f) * 4)
        else bit s.cr p)
unfolding set_cr_field
set_field_bit f nib p s hp hf =
    let sh = (7 - f) * 4 in
    rw
      (
        bit-or (bit_and s.cr (not32 (shl32 0xf sh))) (shl32 (bit_and nib 0xf) sh) p,
        bit-and s.cr (not32 (shl32 0xf sh)) p,
        bit-complement 32 (shl32 0xf sh) p (omega arith) hp,
        shifted_bit 0xf sh p hp,
        shifted_bit (bit_and nib 0xf) sh p hp,
        ones_bit (p - sh),
        nibble_bit nib (p - sh),
      )
      (ground (arith, bit-le-one s.cr p, bit-le-one nib (p - sh)))

-- Bit k of the field g of a condition register.
field_bit : (g k : ℕ) (s : CpuState) → k < 4 → bit (cr_field g s) k ≡ bit s.cr ((7 - g) * 4 + k)
unfolding cr_field
field_bit g k s hk =
    let small : ltb k 4 ≡ true = ground arith in
    rw (nibble_bit (s.cr / 2 ^ ((7 - g) * 4)) k, small) (bit-shr s.cr ((7 - g) * 4) k)

cr_field-lt : (g : ℕ) (s : CpuState) → cr_field g s < 2 ^ 4
unfolding cr_field
cr_field-lt g s = rw (bit_and_low 4 (s.cr / 2 ^ ((7 - g) * 4))) (omega arith)

cr_field-set_cr_field :
    (f g nib : ℕ) (s : CpuState)
    → f ≤ 7
    → g ≤ 7
    → cr_field g (set_cr_field f nib s) ≡ (if g == f then nib % 2 ^ 4 else cr_field g s)
cr_field-set_cr_field f g nib s hf hg = elim (dec_eq g f) [
  | yes e ↦
      let t : (g == f) ≡ true = ground arith in
      rw t (
        bit_ext_below 4 _ _ (cr_field-lt g _) (omega arith) (λ k hk.
          let at : (7 - g) * 4 + k - (7 - f) * 4 ≡ k = omega arith in
          let here : ltb ((7 - g) * 4 + k) ((7 - f) * 4) ≡ false = ground arith in
          let inside : ltb k 4 ≡ true = ground arith in
          field_bit g k (set_cr_field f nib s) hk
          ∙ set_field_bit f nib ((7 - g) * 4 + k) s (omega arith) hf
          ∙ rw (at, here, inside, bit-mod_low nib 4 k hk) refl))
  | no ne ↦
      let t : (g == f) ≡ false = ground arith in
      rw t (
        bit_ext_below 4 _ _ (cr_field-lt g _) (cr_field-lt g s) (λ k hk.
          field_bit g k (set_cr_field f nib s) hk
          ∙ set_field_bit f nib ((7 - g) * 4 + k) s (omega arith) hf
          ∙ ground arith
          ∙ sym (field_bit g k s hk)))
]

-- The nibble of a comparison: less, greater or equal, and the summary overflow bit.
abbrev pub verdict : Bool → Bool → CpuState → ℕ
verdict less greater s = (if less then 8 else if greater then 4 else 2) + s.xer / 2 ^ 31 % 2

verdict_bits :
    (less greater : Bool) (s : CpuState)
    → bit_or (if less then 8 else if greater then 4 else 2) (bit_and (s.xer >>> 31) 1) % 2 ^ 4
      ≡ verdict less greater s
verdict_bits less greater s =
    rw (bit_and_low 1 (s.xer / 2 ^ 31)) (both less greater (s.xer / 2 ^ 31 % 2) (omega arith))
  where
    both :
        (less greater : Bool) (so : ℕ)
        → so < 2
        → bit_or (if less then 8 else if greater then 4 else 2) so % 2 ^ 4
          ≡ (if less then 8 else if greater then 4 else 2) + so
    both true greater so h = rw (bit_or_disjoint 1 4 so h) (omega arith)
    both false true so h = rw (bit_or_disjoint 1 2 so h) (omega arith)
    both false false so h = rw (bit_or_disjoint 1 1 so h) (omega arith)

-- The comparisons, signed and unsigned: the chosen field of the condition register tells whether the
-- first operand is less, greater or equal, next to the summary overflow bit, and no other field changes.
pub cmp_fields :
    (f g : ℕ) (s : CpuState)
    → f ≤ 7
    → g ≤ 7
    → ((a b : ℕ)
        → cr_field g (cmp_u f a b s)
          ≡ (if g == f then verdict (ltb a b) (ltb b a) s else cr_field g s))
      × ((a b : ℤ)
          → cr_field g (cmp_s f a b s)
            ≡ (if g == f then verdict (ltb_ℤ a b) (ltb_ℤ b a) s else cr_field g s))
unfolding cmp_u cmp_s
cmp_fields f g s hf hg = (
  λ a b.
      cr_field-set_cr_field f g _ s hf hg
      ∙ ap (λ (v : ℕ). if g == f then v else cr_field g s) (verdict_bits (ltb a b) (ltb b a) s),
  λ a b.
      cr_field-set_cr_field f g _ s hf hg
      ∙ ap (λ (v : ℕ). if g == f then v else cr_field g s) (verdict_bits (ltb_ℤ a b) (ltb_ℤ b a) s),
)
