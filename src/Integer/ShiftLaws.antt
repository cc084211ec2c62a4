-- ===== src/Integer/ShiftLaws.antt =====
-- The bits that the rotates of core/src/exec_int.cpp move and insert.
use open_power_mac.Prelude.{
  ℕ, ◌+◌, ◌-◌, ◌*◌, ◌%◌, ◌^◌, ◌≤◌, ◌<◌, ◌≡◌, refl, ◌∙◌, sym, ap, Bool, true, false, arith, bit_and,
  bit_or, if◌then◌else◌, not32, min, max, flag, dec_lt,
}
use open_power_mac.Prelude.BitLaws.{
  bit, bit-and, bit-or, bit-shr, bit-shl_low, bit-shl_high, bit-mod_low, bit_above, bit-complement,
  bit-le-one, bit_and_low,
}
use open_power_mac.Bits.{f_rt, f_ra, f_sh, f_mb, f_me, ppcbit, ppcmask}
use open_power_mac.Bits.Laws.{ppcbits_lem, ppcbit_lem, ppcmask_bits, ppcmask-lt, in_mask}
use open_power_mac.Cpu.{CpuState}
use open_power_mac.Integer.Shift.{rotl, h_rlwinm, h_rlwimi}
use open_power_mac.Integer.RecordLaws.{record_rc-set_gpr, Words}

-- Bit k of a word rotated left by n is bit k - n of the word, modulo 32.
pub bit-rotl :
    (v n k : ℕ) → v < 2 ^ 32 → n < 32 → k < 32 → bit (rotl v n) k ≡ bit v ((k + 32 - n) % 32)
unfolding rotl
bit-rotl v n k hv hn hk =
    let small : bit_and n 31 ≡ n = bit_and_low 5 n ∙ omega arith in
    rw (small, bit-or, bit-mod_low (v * 2 ^ n) 32 k hk, bit-shr v (32 - n) k)
      (elim (dec_lt k n) [
        | yes low ↦
            let index : (k + 32 - n) % 32 ≡ 32 - n + k = omega arith in
            rw (bit-shl_low v n k low, index) (omega arith)
        | no high ↦
            let moved : bit (v * 2 ^ n) k ≡ bit v (k - n) =
              ap (bit (v * 2 ^ n)) (omega arith) ∙ bit-shl_high v n (k - n) in
            let index : (k + 32 - n) % 32 ≡ k - n = omega arith in
            rw (moved, index, bit_above 32 v (32 - n + k) hv (omega arith)) (omega arith)
      ])

-- The five-bit fields of a rotate.
fields_below : (i : ℕ) → (f_sh i < 32) × (f_mb i ≤ 31) × (f_me i ≤ 31)
unfolding f_sh f_mb f_me
fields_below i = (
  omega (arith, ppcbits_lem i 16 20 (omega arith)),
  omega (arith, ppcbits_lem i 21 25 (omega arith)),
  omega (arith, ppcbits_lem i 26 30 (omega arith)),
)

-- Bit p of a word rotated left, by PowerPC numbers: the bit that stood n places to the right.
rotl-ppcbit :
    (v n p : ℕ) → v < 2 ^ 32 → n < 32 → p ≤ 31 → bit (rotl v n) (31 - p) ≡ ppcbit v ((p + n) % 32)
rotl-ppcbit v n p hv hn hp =
    let index : (31 - p + 32 - n) % 32 ≡ 31 - (p + n) % 32 = omega arith in
    bit-rotl v n (31 - p) hv hn (omega arith) ∙ rw (index, ppcbit_lem) refl

mask_ppcbit :
    (i p : ℕ)
    → p ≤ 31
    → bit (ppcmask (f_mb i) (f_me i)) (31 - p) ≡ flag (in_mask (f_mb i) (f_me i) p)
mask_ppcbit i p h =
    sym (ppcbit_lem (ppcmask (f_mb i) (f_me i)) p)
    ∙ ppcmask_bits (f_mb i) (f_me i) p (fields_below i).1 (fields_below i).2 h

ppcbit-le-one : (v p : ℕ) → ppcbit v p ≤ 1
ppcbit-le-one v p = rw ppcbit_lem (bit-le-one v (31 - p))

masked_bit : (b : Bool) (x : ℕ) → x ≤ 1 → min x (flag b) ≡ (if b then x else 0)
masked_bit true x h = omega arith
masked_bit false x h = omega arith

-- A bit chosen by a mask from two words.
chosen_bit :
    (b : Bool) (x y : ℕ)
    → x ≤ 1
    → y ≤ 1
    → max (min x (flag b)) (min y (1 - flag b)) ≡ (if b then x else y)
chosen_bit true x y h k = omega arith
chosen_bit false x y h k = omega arith

-- On registers that hold 32-bit words, `rlwinm` moves each bit inside the mask SH places to the
-- left, around the word, and clears the rest.
pub h_rlwinm_bits :
    (i p : ℕ) (s : CpuState)
    → Words s
    → p ≤ 31
    → ppcbit ((h_rlwinm i s).gpr (f_ra i)) p
      ≡ (if in_mask (f_mb i) (f_me i) p then ppcbit (s.gpr (f_rt i)) ((p + f_sh i) % 32) else 0)
unfolding h_rlwinm
h_rlwinm_bits i p s w hp =
    let v = s.gpr (f_rt i) in
    rw
      (
        (record_rc-set_gpr i (f_ra i) (bit_and (rotl v (f_sh i)) (ppcmask (f_mb i) (f_me i))) s).0,
        ppcbit_lem (bit_and (rotl v (f_sh i)) (ppcmask (f_mb i) (f_me i))) p,
        bit-and (rotl v (f_sh i)) (ppcmask (f_mb i) (f_me i)) (31 - p),
        rotl-ppcbit v (f_sh i) p (w (f_rt i)) (fields_below i).0 hp,
        mask_ppcbit i p hp,
      )
      (masked_bit (in_mask (f_mb i) (f_me i) p) _ (ppcbit-le-one v _))

-- On registers that hold 32-bit words, `rlwimi` moves the bits inside the mask SH places to the
-- left, around the word, into rA and keeps the bits of rA outside of it.
pub h_rlwimi_bits :
    (i p : ℕ) (s : CpuState)
    → Words s
    → p ≤ 31
    → ppcbit ((h_rlwimi i s).gpr (f_ra i)) p ≡ (
        if in_mask (f_mb i) (f_me i) p
        then ppcbit (s.gpr (f_rt i)) ((p + f_sh i) % 32)
        else ppcbit (s.gpr (f_ra i)) p)
unfolding h_rlwimi
h_rlwimi_bits i p s w hp =
    let v = s.gpr (f_rt i) in
    let old = s.gpr (f_ra i) in
    let m = ppcmask (f_mb i) (f_me i) in
    let moved = bit_and (rotl v (f_sh i)) m in
    let kept = bit_and old (not32 m) in
    rw
      (
        (record_rc-set_gpr i (f_ra i) (bit_or moved kept) s).0,
        ppcbit_lem (bit_or moved kept) p,
        bit-or moved kept (31 - p),
        bit-and (rotl v (f_sh i)) m (31 - p),
        bit-and old (not32 m) (31 - p),
        bit-complement 32 m (31 - p) (ppcmask-lt (f_mb i) (f_me i)) (omega arith),
        rotl-ppcbit v (f_sh i) p (w (f_rt i)) (fields_below i).0 hp,
        mask_ppcbit i p hp,
        ← ppcbit_lem old p,
      )
      (chosen_bit (in_mask (f_mb i) (f_me i) p) _ _ (ppcbit-le-one v _) (ppcbit-le-one old p))
