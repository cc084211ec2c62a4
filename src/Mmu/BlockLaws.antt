-- ===== src/Mmu/BlockLaws.antt =====
-- Block address translation (core/src/mmu.cpp): which addresses a register pair maps, and where.
use open_power_mac.Prelude.{
  ℕ, suc, ◌+◌, ◌-◌, ◌*◌, ◌/◌, ◌%◌, ◌^◌, ◌≤◌, ◌<◌, ◌≡◌, ◌∙◌, sym, ap, bit_and, bit_or, not32, arith,
}
use open_power_mac.Prelude.BitLaws.{bit_and_low, bit_and_clear, pow_split, bit_or_disjoint}
use native.Mathlib.Nat.{
  one-le-pow, div-add-mod, mod-lt, div-div-eq-div-mul, mul-add-mod_self_left, mod-eq_of_lt,
  lt_of_mul-lt-mul_left, mul-le-mul_right,
}
use open_power_mac.Mmu.Bat.{bat_hit}

-- The block length field of a register pair, where it stands for 2 ^ k blocks of 128 KB.
abbrev pub BlockLength : ℕ → ℕ → Type 0
BlockLength u k = bit_and (u / 2 ^ 2) 0x7ff ≡ 2 ^ k - 1

spread : (q P r e : ℕ) → (q * P + r) * 2 ^ 17 + e ≡ q * (2 ^ 17 * P) + (r * 2 ^ 17 + e)
spread q P r e = let t : q * (2 ^ 17 * P) ≡ q * P * 2 ^ 17 = omega arith in omega arith

mod_split : (e P : ℕ) → 0 < P → e % (2 ^ 17 * P) ≡ e / 2 ^ 17 % P * 2 ^ 17 + e % 2 ^ 17
mod_split e P h =
    let y = e / 2 ^ 17 in
    let inner : P * (y / P) + y % P ≡ y = div-add-mod y P in
    let less : y % P < P = mod-lt y h in
    let scaled : (P * (y / P)) * 2 ^ 17 ≡ 2 ^ 17 * P * (y / P) = omega arith in
    let shape : e ≡ 2 ^ 17 * P * (y / P) + (y % P * 2 ^ 17 + e % 2 ^ 17) = omega arith in
    ap (λ (t : ℕ). t % (2 ^ 17 * P)) shape
    ∙ mul-add-mod_self_left (2 ^ 17 * P) (y / P) (y % P * 2 ^ 17 + e % 2 ^ 17)
    ∙ mod-eq_of_lt (omega arith)

block_below : (x y k : ℕ) → k ≤ 11 → x < 2 ^ 15 → x / 2 ^ k * 2 ^ k + y % 2 ^ k < 2 ^ 15
block_below x y k hk hx =
    let P = 2 ^ k in
    let some_P : 0 < P = one-le-pow k 2 (omega arith) in
    let index : 15 - k + k ≡ 15 = omega arith in
    let whole : 2 ^ (15 - k) * P ≡ 2 ^ 15 =
      sym (pow_split (15 - k) k) ∙ ap (λ (t : ℕ). 2 ^ t) index in
    let below : x / P < 2 ^ (15 - k) = lt_of_mul-lt-mul_left P (omega (arith, div-add-mod x P)) in
    let room : x / P * P + P ≤ 2 ^ (15 - k) * P = times_le (x / P) (2 ^ (15 - k)) P below in
    omega (arith, mod-lt y some_P)
  where
    times_le : (a b p : ℕ) → a < b → a * p + p ≤ b * p
    times_le a b p h = let step : suc a * p ≤ b * p = mul-le-mul_right p h in omega arith

-- The translation of a block of 2 ^ (17 + k) bytes, k up to 11, keeps the offset in the block and
-- replaces the rest of the address by that of the physical block, for registers and an address
-- that are 32-bit words.
pub bat_hit-pa :
    (u l ea k : ℕ)
    → k ≤ 11
    → u < 2 ^ 32
    → l < 2 ^ 32
    → ea < 2 ^ 32
    → BlockLength u k
    → (bat_hit u l ea).pa ≡ l / 2 ^ (17 + k) * 2 ^ (17 + k) + ea % 2 ^ (17 + k)
unfolding bat_hit
bat_hit-pa u l ea k hk hu hl he len =
    let x = l / 2 ^ 17 in
    let y = ea / 2 ^ 17 in
    let P = 2 ^ k in
    let some_P : 0 < P = one-le-pow k 2 (omega arith) in
    let clear : bit_and x (not32 (P - 1)) ≡ x / P * P =
      bit_and_clear k x (omega arith) (omega arith) in
    let join : bit_or (x / P * P) (y % P) ≡ x / P * P + y % P =
      bit_or_disjoint k (x / P) (y % P) (mod-lt y some_P) in
    let fits : x / P * P + y % P < 2 ^ 15 = block_below x y k hk (omega arith) in
    let shifted : (x / P * P + y % P) * 2 ^ 17 % 2 ^ 32 ≡ (x / P * P + y % P) * 2 ^ 17 =
      omega arith in
    let high : l / 2 ^ (17 + k) ≡ x / P =
      rw (pow_split 17 k) (sym (div-div-eq-div-mul l (2 ^ 17) P)) in
    let low : ea % 2 ^ (17 + k) ≡ y % P * 2 ^ 17 + ea % 2 ^ 17 =
      rw (pow_split 17 k) (mod_split ea P some_P) in
    rw
      (
        len,
        clear,
        bit_and_low k y,
        join,
        shifted,
        bit_and_low 17 ea,
        bit_or_disjoint 17 (x / P * P + y % P) (ea % 2 ^ 17) (omega arith),
        high,
        low,
        pow_split 17 k,
      )
      (spread (x / P) P (y % P) (ea % 2 ^ 17))
