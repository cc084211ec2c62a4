-- ===== src/Integer/ShiftValues.antt =====
-- The values that the shifts of core/src/exec_int.cpp compute: shifts at every count, signed division by
-- a power of two, and the count of leading zeros.
use open_power_mac.Prelude.{
  ℕ, zero, suc, ◌+◌, ◌-◌, ◌*◌, ◌/◌, ◌%◌, ◌^◌, ◌≤◌, ◌<◌, ◌≡◌, refl, ◌∙◌, sym, ap, ap₂, ◌≢◌, Bool,
  true, false, ◌&&◌, arith, bit_and, ◌!=◌, if◌then◌else◌, leb, ltb, has, not32, shl32, Bool-cases,
  inl, inr,
}
use open_power_mac.Prelude.BitLaws.{bit_and_low, pow_split}
use open_power_mac.Prelude.Int.{pos, negsuc, signed32, trunc_div, sub_ℕ}
use open_power_mac.Bits.{f_rt, f_ra, f_rb, f_sh, sar32}
use open_power_mac.Bits.Laws.{ppcbits_lem}
use open_power_mac.Cpu.{CpuState, ca, set_ca}
use open_power_mac.Cpu.FlagLaws.{ca-set_ca}
use open_power_mac.Integer.Helpers.{set_gpr, record_rc}
use open_power_mac.Integer.Arith.{h_addze, carry_in}
use open_power_mac.Integer.Shift.{
  h_slw, h_srw, h_srawi, lost_ones, is_negative, countl_zero, h_cntlzw,
}
use open_power_mac.Integer.RecordLaws.{record_rc-set_gpr, record_rc-xer, Words}
use open_power_mac.Integer.AddLaws.{add_xo-Added}
use native.Mathlib.Nat.{
  div-eq_of_lt-le, div-le_self, div-add-mod, mod-lt, one-le-pow, pow-le-pow_right, div-eq_of_lt,
  mul-add-mod_self_left, mod-eq_of_lt, lt_of_mul-lt-mul_left, pow-suc,
}

-- On registers that hold 32-bit words, `slw` and `srw` multiply and divide by the power of two
-- that the low six bits of rB give, so at counts from 32 on nothing is left.
pub shift_values :
    (i : ℕ) (s : CpuState)
    → Words s
    → ((h_slw i s).gpr (f_ra i) ≡ s.gpr (f_rt i) * 2 ^ (s.gpr (f_rb i) % 64) % 2 ^ 32)
      × ((h_srw i s).gpr (f_ra i) ≡ s.gpr (f_rt i) / 2 ^ (s.gpr (f_rb i) % 64))
unfolding h_slw h_srw
shift_values i s w =
    let n = s.gpr (f_rb i) % 64 in
    let v = s.gpr (f_rt i) in
    let count : bit_and (s.gpr (f_rb i)) 63 ≡ n = bit_and_low 6 (s.gpr (f_rb i)) in
    rw count (elim (Bool-cases (leb 32 n)) [
      | inl all ↦
          let split : n ≡ n - 32 + 32 = ground arith in
          let p : 2 ^ n ≡ 2 ^ (n - 32) * 2 ^ 32 =
            ap (λ (t : ℕ). 2 ^ t) split ∙ pow_split (n - 32) 32 in
          let big : 2 ^ 32 ≤ 2 ^ n =
            pow-le-pow_right (omega arith) {i = 32} {j = n} (ground arith) in
          rw all (
            (record_rc-set_gpr i (f_ra i) 0 s).0 ∙ rw p (omega arith),
            (record_rc-set_gpr i (f_ra i) 0 s).0 ∙ sym (div-eq_of_lt (omega (arith, w (f_rt i)))),
          )
      | inr some_left ↦ rw some_left (
        (record_rc-set_gpr i (f_ra i) (v * 2 ^ n % 2 ^ 32) s).0,
        (record_rc-set_gpr i (f_ra i) (v / 2 ^ n) s).0,
      )
    ])

-- Division of the magnitude of a negative word by P = 2 ^ n, where w + 1 is the magnitude.
module _ (w P Q : ℕ) (pos_P : 0 < P) (whole : P * Q ≡ 2 ^ 32) (small : w < 2 ^ 31) where
  abbrev q : ℕ
  q = w / P

  abbrev r : ℕ
  r = w % P

  below_whole : q < Q
  below_whole = lt_of_mul-lt-mul_left P (omega (arith, div-add-mod w P))

  complement_mod : (2 ^ 32 - 1 - w) % P ≡ P - 1 - r
  complement_mod =
      let d = Q - q - 1 in
      let Q_split : Q ≡ q + 1 + d = omega (arith, below_whole) in
      let product : P * Q ≡ P * q + P + P * d = ap (λ (t : ℕ). P * t) Q_split ∙ omega arith in
      let shape : 2 ^ 32 - 1 - w ≡ P * d + (P - 1 - r) =
        omega (arith, div-add-mod w P, mod-lt w pos_P) in
      rw shape (mul-add-mod_self_left P d (P - 1 - r) ∙ mod-eq_of_lt (omega arith))

  next_quotient : (w + 1) / P ≡ (if (2 ^ 32 - 1 - w) % P != 0 then q else q + 1)
  next_quotient = rw complement_mod (elim (Bool-cases (P - 1 - r != 0)) [
    | inl inside ↦ rw inside (
        div-eq_of_lt-le P (omega (arith, div-add-mod w P))
          (ground (arith, div-add-mod w P, mod-lt w pos_P)))
    | inr last ↦ rw last (
        div-eq_of_lt-le P (ground (arith, div-add-mod w P, mod-lt w pos_P))
          (omega (arith, div-add-mod w P, mod-lt w pos_P)))
  ])

  -- The quotient as the shift and the carry leave it: one less where no bit was lost.
  negative_quotient :
      signed32 ((2 ^ 32 - 1 - w / P + 0 + (if (2 ^ 32 - 1 - w) % P != 0 then 1 else 0)) % 2 ^ 32)
      ≡ sub_ℕ 0 ((w + 1) / P)
  negative_quotient =
      let low : w / P ≤ w = div-le_self w P in
      rw next_quotient (elim (Bool-cases ((2 ^ 32 - 1 - w) % P != 0)) [
        | inl lost ↦ rw lost (ground arith)
        | inr exact ↦ rw exact (ground arith)
      ])

-- The carry of the shift tells whether a negative word loses one bits.
power-lt : (n : ℕ) → n < 32 → 2 ^ n < 2 ^ 32
power-lt n h =
    let step : 2 ^ suc n ≡ 2 ^ n * 2 = pow-suc 2 n in
    let up : 2 ^ suc n ≤ 2 ^ 32 = pow-le-pow_right (omega arith) {i = suc n} {j = 32} h in
    let pos_P : 0 < 2 ^ n = one-le-pow n 2 (omega arith) in omega arith

lost_mask : (v n : ℕ) → n < 32 → (n != 0 && bit_and v (shl32 1 n - 1) != 0) ≡ (v % 2 ^ n != 0)
lost_mask v zero h = ground arith
lost_mask v (suc n) h =
    let wide : 1 * 2 ^ suc n % 2 ^ 32 ≡ 2 ^ suc n = omega (arith, power-lt (suc n) h) in
    let mask : bit_and v (shl32 1 (suc n) - 1) ≡ v % 2 ^ suc n =
      ap (λ (t : ℕ). bit_and v (t - 1)) wide ∙ bit_and_low (suc n) v in
    let some_count : (suc n != 0) ≡ true = ground arith in
    rw some_count (ap (λ (t : ℕ). t != 0) mask)

and_assoc : (a b c : Bool) → (a && b && c) ≡ (a && (b && c))
and_assoc true b c = refl
and_assoc false b c = refl

lost_ones_lem : (v n : ℕ) → v < 2 ^ 32 → n < 32 → lost_ones v n ≡ (leb (2 ^ 31) v && v % 2 ^ n != 0)
lost_ones_lem v n hv hn =
    and_assoc (is_negative v) (n != 0) (bit_and v (shl32 1 n - 1) != 0)
    ∙ ap₂ (λ (a b : Bool). a && b) sign (lost_mask v n hn)
  where
    sign : is_negative v ≡ leb (2 ^ 31) v
    sign = ground arith

trunc_negative : (w P : ℕ) → 0 < P → trunc_div (negsuc w) (pos P) ≡ sub_ℕ 0 ((w + 1) / P)
unfolding trunc_div
trunc_negative w P h =
    let m : 0 + suc w ≡ w + 1 = omega arith in
    let d : P + 0 ≡ P = omega arith in
    let opposite : leb (0 * 0 + suc w * P) 0 ≡ false = ground arith in rw (opposite, m, d)

trunc_positive : (v P : ℕ) → 0 < P → trunc_div (pos v) (pos P) ≡ pos (v / P)
unfolding trunc_div
trunc_positive v P h =
    let m : v + 0 ≡ v = omega arith in
    let d : P + 0 ≡ P = omega arith in
    let alike : leb (v * 0 + 0 * P) 0 ≡ true = ground arith in rw (alike, m, d)

sar32-lt : (v n : ℕ) → v < 2 ^ 32 → sar32 v n < 2 ^ 32
unfolding sar32
sar32-lt v n h = let low : v / 2 ^ n ≤ v = div-le_self v (2 ^ n) in ground arith

shift_divides :
    (v n : ℕ)
    → v < 2 ^ 32
    → n < 32
    → signed32 ((sar32 v n + 0 + (if lost_ones v n then 1 else 0)) % 2 ^ 32)
      ≡ trunc_div (signed32 v) (pos (2 ^ n))
unfolding sar32
shift_divides v n hv hn =
    let pos_P : 0 < 2 ^ n = one-le-pow n 2 (omega arith) in
    let index : n + (32 - n) ≡ 32 = omega arith in
    let whole : 2 ^ n * 2 ^ (32 - n) ≡ 2 ^ 32 =
      sym (pow_split n (32 - n)) ∙ ap (λ (t : ℕ). 2 ^ t) index in
    elim (Bool-cases (leb (2 ^ 31) v)) [
      | inl negative ↦
          let back : v ≡ 2 ^ 32 - 1 - not32 v = omega arith in
          let sign : ltb v (2 ^ 31) ≡ false = ground arith in
          let low : not32 v < 2 ^ 31 = ground arith in
          rw (lost_ones_lem v n hv hn, negative, sign)
            (ap
                (λ (t : ℕ).
                  signed32
                    ((not32 (not32 v / 2 ^ n) + 0 + (if t % 2 ^ n != 0 then 1 else 0)) % 2 ^ 32))
                back
              ∙ negative_quotient (not32 v) (2 ^ n) (2 ^ (32 - n)) pos_P whole low
              ∙ sym (trunc_negative (not32 v) (2 ^ n) pos_P))
      | inr positive ↦
          let sign : ltb v (2 ^ 31) ≡ true = ground arith in
          let low : v / 2 ^ n ≤ v = div-le_self v (2 ^ n) in
          let small : v < 2 ^ 31 = ground arith in
          rw (lost_ones_lem v n hv hn, positive, sign)
            (ground arith ∙ sym (trunc_positive v (2 ^ n) pos_P))
    ]

ca_of : (s t : CpuState) → s.xer ≡ t.xer → ca s ≡ ca t
unfolding ca
ca_of s t same = ap (λ (x : ℕ). has x 0x2000_0000) same

-- On registers that hold 32-bit words, `srawi` followed by `addze` of its result divides a signed
-- word by 2 ^ SH, rounding towards zero as the division of C does.
pub srawi-addze :
    (i j : ℕ) (s : CpuState)
    → Words s
    → f_ra j ≡ f_ra i
    → signed32 ((h_addze j (h_srawi i s)).gpr (f_rt j))
      ≡ trunc_div (signed32 (s.gpr (f_rt i))) (pos (2 ^ f_sh i))
unfolding h_addze h_srawi f_sh set_ca ca
srawi-addze i j s w same =
    let v = s.gpr (f_rt i) in
    let n = f_sh i in
    let r = sar32 v n in
    let t = set_ca (lost_ones v n) s in
    let u = record_rc i r (set_gpr (f_ra i) r t) in
    let kept : u.gpr (f_ra j) ≡ r = ap u.gpr same ∙ (record_rc-set_gpr i (f_ra i) r t).0 in
    let small : u.gpr (f_ra j) < 2 ^ 32 = rw kept (sar32-lt v n (w _)) in
    let carried : ca u ≡ lost_ones v n =
      ca_of u (set_gpr (f_ra i) r t) (record_rc-xer i r (set_gpr (f_ra i) r t))
      ∙ ca-set_ca (lost_ones v n) s in
    let sum =
      add_xo-Added (u.gpr (f_ra j)) 0 (carry_in u) j true u small (omega arith) (ground arith) in
    ap signed32 (sum.value ∙ rw (kept, carried) refl)
    ∙ shift_divides v n (w _) (omega (arith, ppcbits_lem i 16 20 (omega arith)))

-- Every word below 2 ^ n has its leading zeros counted within n bits.
countl_zero_lem :
    (n v : ℕ)
    → v < 2 ^ n
    → v ≢ 0
    → (2 ^ n ≤ v * 2 ^ suc (countl_zero n v)) × (v * 2 ^ countl_zero n v < 2 ^ n)
unfolding countl_zero
countl_zero_lem zero v h ne = (omega arith, omega arith)
countl_zero_lem (suc n) v h ne =
    let step : 2 ^ suc n ≡ 2 ^ n * 2 = pow-suc 2 n in
    elim (Bool-cases (leb (2 ^ n) v)) [
      | inl top ↦ let big : 2 ^ n ≤ v = ground arith in rw top (omega arith, omega arith)
      | inr rest ↦
          let c = countl_zero n v in
          let below : v < 2 ^ n = ground arith in
          let (lo, hi) = countl_zero_lem n v below ne in
          let double : v * 2 ^ suc c ≡ v * 2 ^ c * 2 = rw (pow-suc 2 c) (omega arith) in
          let again : v * 2 ^ suc (suc c) ≡ v * 2 ^ suc c * 2 =
            rw (pow-suc 2 (suc c)) (omega arith) in
          rw rest (omega arith, omega arith)
    ]

-- `cntlzw` of a 32-bit word other than 0 leaves the shift that brings its highest one bit to the
-- top.
pub h_cntlzw_lem :
    (i : ℕ) (s : CpuState)
    → Words s
    → s.gpr (f_rt i) ≢ 0
    → (2 ^ 31 ≤ s.gpr (f_rt i) * 2 ^ (h_cntlzw i s).gpr (f_ra i))
      × (s.gpr (f_rt i) * 2 ^ (h_cntlzw i s).gpr (f_ra i) < 2 ^ 32)
unfolding h_cntlzw
h_cntlzw_lem i s w ne =
    let v = s.gpr (f_rt i) in
    let c = countl_zero 32 v in
    let (lo, hi) = countl_zero_lem 32 v (w _) ne in
    let double : v * 2 ^ suc c ≡ v * 2 ^ c * 2 = rw (pow-suc 2 c) (omega arith) in
    rw (record_rc-set_gpr i (f_ra i) c s).0 (omega arith, hi)
