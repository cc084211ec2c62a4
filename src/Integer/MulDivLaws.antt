-- ===== src/Integer/MulDivLaws.antt =====
-- The products and quotients of core/src/exec_int.cpp.
use open_power_mac.Prelude.{
  ℕ, suc, ◌+◌, ◌-◌, ◌*◌, ◌/◌, ◌%◌, ◌^◌, ◌≤◌, ◌<◌, ◌≡◌, refl, ◌∙◌, sym, ap, ◌≢◌, false, not, arith,
  Bool-cases, inl, inr, if◌then◌else◌, ◌==◌, ◌!=◌, ltb, has,
}
use open_power_mac.Prelude.Int.{sub_ℕ, signed32, wrap32, eqb_ℤ, ◌*ℤ◌}
use open_power_mac.Bits.{f_rt, f_ra, f_rb, f_oebit}
use open_power_mac.Cpu.{CpuState, set_ov}
use open_power_mac.Cpu.FlagLaws.{ov, ov-set_ov}
use open_power_mac.Integer.Helpers.{set_gpr}
use open_power_mac.Integer.MulDiv.{h_mullw, h_mulhwu, h_divwu, signed_product}
use open_power_mac.Integer.RecordLaws.{record_rc-set_gpr, record_rc-xer, Words}
use native.Mathlib.Nat.{div-add-mod, mod-lt}

wrap_sub : (x y z q : ℕ) → x + 2 ^ 32 * q ≡ y + z → wrap32 (sub_ℕ x y) ≡ z % 2 ^ 32
wrap_sub x y z q h = ground arith

scaled : (x y z : ℕ) → y + z ≡ 2 ^ 32 → 2 ^ 32 * x ≡ x * y + x * z
scaled x y z e =
    let factored : x * (y + z) ≡ x * y + x * z = omega arith in
    ap (λ (t : ℕ). t * x) (sym e) ∙ omega arith

complement_sum : (a : ℕ) → a < 2 ^ 32 → suc (2 ^ 32 - 1 - a) + a ≡ 2 ^ 32
complement_sum a h = omega arith

-- The low word of a product does not depend on how the operands' signs are read.
low_product :
    (a b : ℕ) → a < 2 ^ 32 → b < 2 ^ 32 → wrap32 (signed32 a *ℤ signed32 b) ≡ a * b % 2 ^ 32
unfolding ◌*ℤ◌
low_product a b ha hb =
    let na = suc (2 ^ 32 - 1 - a) in
    let nb = suc (2 ^ 32 - 1 - b) in
    let by_a : 2 ^ 32 * a ≡ a * nb + a * b = scaled a nb b (complement_sum b hb) in
    let by_b : 2 ^ 32 * b ≡ b * na + b * a = scaled b na a (complement_sum a ha) in
    let by_nb : 2 ^ 32 * nb ≡ nb * na + nb * a = scaled nb na a (complement_sum a ha) in
    elim (Bool-cases (ltb a (2 ^ 31))) [
      | inl pa ↦ elim (Bool-cases (ltb b (2 ^ 31))) [
        | inl pb ↦ rw (pa, pb) (wrap_sub _ _ (a * b) 0 (omega arith))
        | inr neg_b ↦ rw (pa, neg_b) (wrap_sub _ _ (a * b) a (omega (arith, by_a)))
      ]
      | inr neg_a ↦ elim (Bool-cases (ltb b (2 ^ 31))) [
        | inl pb ↦ rw (neg_a, pb) (wrap_sub _ _ (a * b) b (omega (arith, by_b)))
        | inr neg_b ↦
            let large : 2 ^ 32 ≤ a + b = ground arith in
            rw (neg_a, neg_b) (wrap_sub _ _ (a * b) (a + b - 2 ^ 32) (omega (arith, by_a, by_nb)))
      ]
    ]

-- The state in which `mullw` writes its result.
abbrev overflow_noted : ℕ → CpuState → CpuState
overflow_noted i s =
    if f_oebit i != 0
    then set_ov (not (eqb_ℤ (signed_product i s) (signed32 (wrap32 (signed_product i s))))) s
    else s

mullw_value :
    (i : ℕ) (s : CpuState)
    → Words s
    → (h_mullw i s).gpr (f_rt i) ≡ s.gpr (f_ra i) * s.gpr (f_rb i) % 2 ^ 32
unfolding h_mullw
mullw_value i s w =
    (record_rc-set_gpr i (f_rt i) (wrap32 (signed_product i s)) (overflow_noted i s)).0
    ∙ low_product (s.gpr (f_ra i)) (s.gpr (f_rb i)) (w _) (w _)

mulhwu_value :
    (i : ℕ) (s : CpuState) → (h_mulhwu i s).gpr (f_rt i) ≡ s.gpr (f_ra i) * s.gpr (f_rb i) / 2 ^ 32
unfolding h_mulhwu
mulhwu_value i s = (record_rc-set_gpr i (f_rt i) (s.gpr (f_ra i) * s.gpr (f_rb i) / 2 ^ 32) s).0

-- On registers that hold 32-bit words, `mullw` and `mulhwu` of the same operands give the low and
-- the high word of their unsigned product.
pub mullw-mulhwu :
    (i j : ℕ) (s : CpuState)
    → Words s
    → f_ra j ≡ f_ra i
    → f_rb j ≡ f_rb i
    → (h_mullw i s).gpr (f_rt i) + 2 ^ 32 * (h_mulhwu j s).gpr (f_rt j)
      ≡ s.gpr (f_ra i) * s.gpr (f_rb i)
mullw-mulhwu i j s w same_a same_b =
    let a = s.gpr (f_ra i) in
    let b = s.gpr (f_rb i) in
    let low : (h_mullw i s).gpr (f_rt i) ≡ a * b % 2 ^ 32 = mullw_value i s w in
    let high : (h_mulhwu j s).gpr (f_rt j) ≡ a * b / 2 ^ 32 =
      mulhwu_value j s ∙ rw (same_a, same_b) refl in
    rw (low, high) (omega arith)

quotient_bounds : (a b : ℕ) → b ≢ 0 → (b * (a / b) ≤ a) × (a < b * suc (a / b))
quotient_bounds a b ne =
    let some_b : 0 < b = omega arith in
    let below : a % b < b = mod-lt a some_b in
    let next : b * suc (a / b) ≡ b * (a / b) + b = omega arith in
    (omega (arith, div-add-mod a b), omega (arith, div-add-mod a b))

-- `divwu` by a word other than 0 gives the quotient of rA by rB, with a remainder below rB, and clears
-- the overflow bit where OE is set.
pub h_divwu_lem :
    (i : ℕ) (s : CpuState)
    → s.gpr (f_rb i) ≢ 0
    → (s.gpr (f_rb i) * (h_divwu i s).gpr (f_rt i) ≤ s.gpr (f_ra i))
      × (s.gpr (f_ra i) < s.gpr (f_rb i) * suc ((h_divwu i s).gpr (f_rt i)))
      × (ov (h_divwu i s) ≡ (if f_oebit i != 0 then false else ov s))
unfolding h_divwu
h_divwu_lem i s ne =
    let a = s.gpr (f_ra i) in
    let b = s.gpr (f_rb i) in
    let r = a / b in
    let noted = if f_oebit i != 0 then set_ov false s else s in
    let some_b : (b == 0) ≡ false = ground arith in
    let (low, high) = quotient_bounds a b ne in
    rw (some_b, (record_rc-set_gpr i (f_rt i) r noted).0)
      (
        low,
        high,
        ap (λ (x : ℕ). has x 0x4000_0000) (record_rc-xer i r (set_gpr (f_rt i) r noted))
            ∙ elim (Bool-cases (f_oebit i != 0)) [
              | inl oe ↦ rw oe (ov-set_ov false s)
              | inr plain ↦ rw plain
            ],
      )
