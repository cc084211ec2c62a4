-- ===== src/Prelude/BitLaws/Testing.antt =====
-- `bit x k` is bit k of x, counted from the low end. The bit operations are known by their bits, and
-- two words with the same bits are equal.
use Prim.Native.Nat.{ℕ, zero, suc, ◌+◌, ◌-◌, ◌*◌, ◌/◌, ◌%◌, ◌^◌, ◌≤◌, ◌<◌, min, max, differ}
use Prim.Native.Nat.{bit_and, bit_or, bit_xor}
use mathlib.Core.Path.{◌≡◌, refl, sym, ap, ◌∙◌}
use native.Mathlib.Nat.{
  div-div-eq-div-mul, pow-succ', one-le-pow, mul-add-mod_self_left, mod-eq_of_lt, mod-lt,
  div-add-mod,
}
use native.Mathlib.Omega.{arith}
use open_power_mac.Prelude.BitLaws.Digits.{bit_and_halves, bit_or_halves, bit_xor_halves}

unfoldable pub bit : ℕ → ℕ → ℕ
bit x k = x / 2 ^ k % 2

pub bit-zero : (x : ℕ) → bit x 0 ≡ x % 2
unfolding bit
bit-zero x = omega arith

pub bit-suc : (x k : ℕ) → bit x (suc k) ≡ bit (x / 2) k
unfolding bit
bit-suc x k = rw (pow-succ' 2 k, ← div-div-eq-div-mul x 2 (2 ^ k))

pub bit-le-one : (x k : ℕ) → bit x k ≤ 1
unfolding bit
bit-le-one x k = omega arith

pub bit_of_zero : (k : ℕ) → bit 0 k ≡ 0
bit_of_zero zero = omega (arith, bit-zero 0)
bit_of_zero (suc k) = bit-suc 0 k ∙ bit_of_zero k

-- The bits of the operations.
pub bit-and : (a b k : ℕ) → bit (bit_and a b) k ≡ min (bit a k) (bit b k)
bit-and a b zero = omega (arith, bit_and_halves a b, bit-zero a, bit-zero b, bit-zero (bit_and a b))
bit-and a b (suc k) =
    let half : bit_and a b / 2 ≡ bit_and (a / 2) (b / 2) = omega (arith, bit_and_halves a b) in
    rw (bit-suc, bit-suc a k, bit-suc b k, half) (bit-and (a / 2) (b / 2) k)

pub bit-or : (a b k : ℕ) → bit (bit_or a b) k ≡ max (bit a k) (bit b k)
bit-or a b zero = omega (arith, bit_or_halves a b, bit-zero a, bit-zero b, bit-zero (bit_or a b))
bit-or a b (suc k) =
    let half : bit_or a b / 2 ≡ bit_or (a / 2) (b / 2) = omega (arith, bit_or_halves a b) in
    rw (bit-suc, bit-suc a k, bit-suc b k, half) (bit-or (a / 2) (b / 2) k)

differ_digits : (x y : ℕ) → x ≤ 1 → y ≤ 1 → differ x y ≡ (x + y) % 2
differ_digits zero y p q = omega arith
differ_digits (suc zero) zero p q = refl
differ_digits (suc zero) (suc zero) p q = refl
differ_digits (suc zero) (suc (suc y)) p q = absurd (omega arith)
differ_digits (suc (suc x)) y p q = absurd (omega arith)

pub bit_xor_halves' : (a b : ℕ) → bit_xor a b ≡ bit_xor (a / 2) (b / 2) * 2 + (a + b) % 2
bit_xor_halves' a b =
    omega (arith, bit_xor_halves a b, differ_digits (a % 2) (b % 2) (omega arith) (omega arith))

pub bit-xor : (a b k : ℕ) → bit (bit_xor a b) k ≡ (bit a k + bit b k) % 2
bit-xor a b zero =
    omega (arith, bit_xor_halves' a b, bit-zero a, bit-zero b, bit-zero (bit_xor a b))
bit-xor a b (suc k) =
    let half : bit_xor a b / 2 ≡ bit_xor (a / 2) (b / 2) = omega (arith, bit_xor_halves' a b) in
    rw (bit-suc, bit-suc a k, bit-suc b k, half) (bit-xor (a / 2) (b / 2) k)

-- Words below 2 ^ n with the same n low bits are equal.
pub bit_ext_below :
    (n a b : ℕ) → a < 2 ^ n → b < 2 ^ n → ((k : ℕ) → k < n → bit a k ≡ bit b k) → a ≡ b
bit_ext_below zero a b p q h = omega arith
bit_ext_below (suc n) a b p q h =
    let p' : a < 2 * 2 ^ n = rw (pow-succ' 2 n) at p in
    let q' : b < 2 * 2 ^ n = rw (pow-succ' 2 n) at q in
    let low : a % 2 ≡ b % 2 = sym (bit-zero a) ∙ h 0 (omega arith) ∙ bit-zero b in
    let high =
      bit_ext_below n (a / 2) (b / 2) (omega arith) (omega arith)
        (λ k k<n. sym (bit-suc a k) ∙ h (suc k) (omega arith) ∙ bit-suc b k) in
    omega (arith, high, low)

-- Shifts.
pub bit-shr : (x j k : ℕ) → bit (x / 2 ^ j) k ≡ bit x (j + k)
bit-shr x zero k = ap (λ (t : ℕ). bit t k) (omega arith) ∙ ap (bit x) (omega arith)
bit-shr x (suc j) k =
    let halved : x / 2 ^ suc j ≡ x / 2 / 2 ^ j =
      rw (pow-succ' 2 j) (sym (div-div-eq-div-mul x 2 (2 ^ j))) in
    let index : suc j + k ≡ suc (j + k) = omega arith in
    rw (halved, index) (bit-shr (x / 2) j k ∙ sym (bit-suc x (j + k)))

doubled : (x j : ℕ) → x * 2 ^ suc j ≡ 2 * (x * 2 ^ j)
doubled x j = omega (arith, ap (λ (t : ℕ). x * t) (pow-succ' 2 j))

pub bit-shl_low : (x j k : ℕ) → k < j → bit (x * 2 ^ j) k ≡ 0
bit-shl_low x zero k h = elim h [ ]
bit-shl_low x (suc j) zero h = rw (bit-zero, doubled x j) (omega arith)
bit-shl_low x (suc j) (suc k) h =
    let half : x * 2 ^ suc j / 2 ≡ x * 2 ^ j = omega (arith, doubled x j) in
    rw (bit-suc, half) (bit-shl_low x j k (omega arith))

pub bit-shl_high : (x j k : ℕ) → bit (x * 2 ^ j) (j + k) ≡ bit x k
bit-shl_high x zero k = ap (λ (t : ℕ). bit t (0 + k)) (omega arith) ∙ ap (bit x) (omega arith)
bit-shl_high x (suc j) k =
    let half : x * 2 ^ suc j / 2 ≡ x * 2 ^ j = omega (arith, doubled x j) in
    let index : suc j + k ≡ suc (j + k) = omega arith in
    rw (index, bit-suc, half) (bit-shl_high x j k)

-- The low n bits.
pub half_mod : (x m : ℕ) → 0 < m → x % (2 * m) / 2 ≡ x / 2 % m
half_mod x m h =
    let q = x / (2 * m) in
    let r = x % (2 * m) in
    let whole : 2 * m * q + r ≡ x = div-add-mod x (2 * m) in
    let small : r < 2 * m = mod-lt x (omega arith) in
    let halves : x / 2 ≡ m * q + r / 2 = omega arith in
    rw halves (sym (mul-add-mod_self_left m q (r / 2) ∙ mod-eq_of_lt (omega arith)))

pub bit-mod_low : (x n k : ℕ) → k < n → bit (x % 2 ^ n) k ≡ bit x k
bit-mod_low x zero k h = elim h [ ]
bit-mod_low x (suc n) zero h =
    let q = x / (2 * 2 ^ n) in
    rw (bit-zero, bit-zero, pow-succ' 2 n) (omega (arith, div-add-mod x (2 * 2 ^ n)))
bit-mod_low x (suc n) (suc k) h =
    rw (bit-suc, bit-suc, pow-succ' 2 n, half_mod x (2 ^ n) (one-le-pow n 2 (omega arith)))
      (bit-mod_low (x / 2) n k (omega arith))

-- A word below 2 ^ n has no bit from n on.
pub bit_above : (n x k : ℕ) → x < 2 ^ n → n ≤ k → bit x k ≡ 0
bit_above zero x k h le = ap (λ (t : ℕ). bit t k) (omega arith) ∙ bit_of_zero k
bit_above (suc n) x zero h le = absurd (omega arith)
bit_above (suc n) x (suc k) h le =
    let h' : x < 2 * 2 ^ n = rw (pow-succ' 2 n) at h in
    rw bit-suc (bit_above n (x / 2) k (omega arith) (omega arith))

-- The complement within n bits.
pub bit-complement : (n x k : ℕ) → x < 2 ^ n → k < n → bit (2 ^ n - 1 - x) k ≡ 1 - bit x k
bit-complement zero x k h lt = elim lt [ ]
bit-complement (suc n) x zero h lt =
    let h' : x < 2 * 2 ^ n = rw (pow-succ' 2 n) at h in
    rw (bit-zero, bit-zero, pow-succ' 2 n) (omega arith)
bit-complement (suc n) x (suc k) h lt =
    let h' : x < 2 * 2 ^ n = rw (pow-succ' 2 n) at h in
    let half : (2 * 2 ^ n - 1 - x) / 2 ≡ 2 ^ n - 1 - x / 2 = omega arith in
    rw (bit-suc, bit-suc, pow-succ' 2 n, half)
      (bit-complement n (x / 2) k (omega arith) (omega arith))
