-- ===== src/Prelude/BitLaws/Parts.antt =====
-- The bit operations on a low field and the rest of a number.
use Prim.Native.Nat.{ℕ, zero, suc, ◌+◌, ◌*◌, ◌/◌, ◌%◌, ◌^◌, ◌<◌, bit_and, bit_or}
use mathlib.Core.Path.{◌≡◌, ap}
use native.Mathlib.Nat.{pow-succ'}
use native.Mathlib.Omega.{arith}
use open_power_mac.Prelude.BitLaws.Digits.{bit_and_halves, bit_or_halves}
use open_power_mac.Prelude.BitLaws.Masks.{bit_and-zero, bit_or-zero}

-- The operations on a low field and the rest.
pub bit_and_parts :
    (k a b c d : ℕ)
    → a < 2 ^ k
    → c < 2 ^ k
    → bit_and (a + 2 ^ k * b) (c + 2 ^ k * d) ≡ bit_and a c + 2 ^ k * bit_and b d
bit_and_parts zero a b c d ha hc =
    let a0 : a ≡ 0 = omega arith in
    let c0 : c ≡ 0 = omega arith in
    let b1 : a + 2 ^ zero * b ≡ b = omega arith in
    let d1 : c + 2 ^ zero * d ≡ d = omega arith in
    rw (b1, d1, a0) (omega (arith, bit_and-zero 0, c0, ap (bit_and 0) c0))
bit_and_parts (suc k) a b c d ha hc =
    let ha' : a < 2 * 2 ^ k = rw (pow-succ' 2 k) at ha in
    let hc' : c < 2 * 2 ^ k = rw (pow-succ' 2 k) at hc in
    let pb : 2 ^ suc k * b ≡ 2 * (2 ^ k * b) =
      omega (arith, ap (λ (t : ℕ). t * b) (pow-succ' 2 k)) in
    let pd : 2 ^ suc k * d ≡ 2 * (2 ^ k * d) =
      omega (arith, ap (λ (t : ℕ). t * d) (pow-succ' 2 k)) in
    let pr : 2 ^ suc k * bit_and b d ≡ 2 * (2 ^ k * bit_and b d) =
      omega (arith, ap (λ (t : ℕ). t * bit_and b d) (pow-succ' 2 k)) in
    let ah : (a + 2 * (2 ^ k * b)) / 2 ≡ a / 2 + 2 ^ k * b = omega arith in
    let ch : (c + 2 * (2 ^ k * d)) / 2 ≡ c / 2 + 2 ^ k * d = omega arith in
    let al : (a + 2 * (2 ^ k * b)) % 2 ≡ a % 2 = omega arith in
    let cl : (c + 2 * (2 ^ k * d)) % 2 ≡ c % 2 = omega arith in
    rw
      (
        pb,
        pd,
        pr,
        bit_and_halves (a + 2 * (2 ^ k * b)) (c + 2 * (2 ^ k * d)),
        ah,
        ch,
        al,
        cl,
        bit_and_parts k (a / 2) b (c / 2) d (omega arith) (omega arith),
      )
      (omega (arith, bit_and_halves a c))

pub bit_or_parts :
    (k a b c d : ℕ)
    → a < 2 ^ k
    → c < 2 ^ k
    → bit_or (a + 2 ^ k * b) (c + 2 ^ k * d) ≡ bit_or a c + 2 ^ k * bit_or b d
bit_or_parts zero a b c d ha hc =
    let a0 : a ≡ 0 = omega arith in
    let c0 : c ≡ 0 = omega arith in
    let b1 : a + 2 ^ zero * b ≡ b = omega arith in
    let d1 : c + 2 ^ zero * d ≡ d = omega arith in
    rw (b1, d1, a0) (omega (arith, bit_or-zero 0, c0, ap (bit_or 0) c0))
bit_or_parts (suc k) a b c d ha hc =
    let ha' : a < 2 * 2 ^ k = rw (pow-succ' 2 k) at ha in
    let hc' : c < 2 * 2 ^ k = rw (pow-succ' 2 k) at hc in
    let pb : 2 ^ suc k * b ≡ 2 * (2 ^ k * b) =
      omega (arith, ap (λ (t : ℕ). t * b) (pow-succ' 2 k)) in
    let pd : 2 ^ suc k * d ≡ 2 * (2 ^ k * d) =
      omega (arith, ap (λ (t : ℕ). t * d) (pow-succ' 2 k)) in
    let pr : 2 ^ suc k * bit_or b d ≡ 2 * (2 ^ k * bit_or b d) =
      omega (arith, ap (λ (t : ℕ). t * bit_or b d) (pow-succ' 2 k)) in
    let ah : (a + 2 * (2 ^ k * b)) / 2 ≡ a / 2 + 2 ^ k * b = omega arith in
    let ch : (c + 2 * (2 ^ k * d)) / 2 ≡ c / 2 + 2 ^ k * d = omega arith in
    let al : (a + 2 * (2 ^ k * b)) % 2 ≡ a % 2 = omega arith in
    let cl : (c + 2 * (2 ^ k * d)) % 2 ≡ c % 2 = omega arith in
    rw
      (
        pb,
        pd,
        pr,
        bit_or_halves (a + 2 * (2 ^ k * b)) (c + 2 * (2 ^ k * d)),
        ah,
        ch,
        al,
        cl,
        bit_or_parts k (a / 2) b (c / 2) d (omega arith) (omega arith),
      )
      (omega (arith, bit_or_halves a c))
