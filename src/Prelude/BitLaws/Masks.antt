-- ===== src/Prelude/BitLaws/Masks.antt =====
-- Masks: low bits are a remainder, one bit is a test, disjoint fields add up, and the operations stay
-- within the width of their arguments.
use Prim.Native.Nat.{ℕ, zero, suc, ◌+◌, ◌-◌, ◌*◌, ◌/◌, ◌%◌, ◌^◌, ◌≤◌, ◌<◌, min}
use Prim.Native.Nat.{bit_and, bit_or, bit_xor}
use mathlib.Core.Path.{◌≡◌, refl, sym, ap, ◌∙◌}
use mathlib.Core.WellFounded
use native.Mathlib.Nat.{
  pow-succ', pow-suc, mod-eq_of_lt, lt_of_mul-lt-mul_left, one-le-pow, div-add-mod,
  div-div-eq-div-mul,
}
use native.Mathlib.Omega.{arith}
use native.Mathlib.Decide.{dec_lt}
use mathlib.Core.Logic.{◌≢◌}
use open_power_mac.Prelude.Order.{lt_wf}
use open_power_mac.Prelude.Tests.{◌==◌, ◌!=◌}
use open_power_mac.Prelude.Words.{has}
use open_power_mac.Prelude.BitLaws.Digits.{bit_and_halves, bit_or_halves}
use open_power_mac.Prelude.BitLaws.Testing.{
  bit, bit-zero, bit-suc, bit-le-one, bit_of_zero, bit-shl_low, bit-shl_high, half_mod,
  bit_xor_halves',
}

-- What holds of 0, and of a number whenever it holds of its half, holds of every number.
by_halves : (P : ℕ → Type 0) → P 0 → ((n : ℕ) → P (suc n / 2) → P (suc n)) → (x : ℕ) → P x
by_halves P at_zero up x = WellFounded.induction lt_wf {C = P} x chain
  where
    chain : (k : ℕ) → ((j : ℕ) → j < k → P j) → P k
    chain zero below = at_zero
    chain (suc k) below = up k (below (suc k / 2) (omega arith))

-- `x & 0`, `x | 0` and the other way round.
pub bit_and-zero : (a : ℕ) → bit_and a 0 ≡ 0
bit_and-zero =
    by_halves (λ x. bit_and x 0 ≡ 0) refl (λ n half. omega (arith, bit_and_halves (suc n) 0, half))

pub bit_or-zero : (a : ℕ) → bit_or a 0 ≡ a
bit_or-zero =
    by_halves (λ x. bit_or x 0 ≡ x) refl (λ n half. omega (arith, bit_or_halves (suc n) 0, half))

pub zero-bit_and : (b : ℕ) → bit_and 0 b ≡ 0
zero-bit_and =
    by_halves (λ x. bit_and 0 x ≡ 0) refl (λ n half. omega (arith, bit_and_halves 0 (suc n), half))

-- `x & (2^n - 1)`.
pub bit_and_low : (n x : ℕ) → bit_and x (2 ^ n - 1) ≡ x % 2 ^ n
bit_and_low zero x = omega (arith, bit_and-zero x)
bit_and_low (suc n) x =
    let pos : 1 ≤ 2 ^ n = one-le-pow n 2 (omega arith) in
    let half : (2 * 2 ^ n - 1) / 2 ≡ 2 ^ n - 1 = omega arith in
    let odd : (2 * 2 ^ n - 1) % 2 ≡ 1 = omega arith in
    let digits = bit_and_halves x (2 * 2 ^ n - 1) in
    let rest = bit_and_low n (x / 2) in
    rw (pow-succ' 2 n, digits, half, odd, rest) (low_digit x (2 ^ n) pos)
  where
    low_digit : (x m : ℕ) → 1 ≤ m → x / 2 % m * 2 + min (x % 2) 1 ≡ x % (2 * m)
    low_digit x m pos = omega (arith, half_mod x m pos, div-add-mod x (2 * m))

-- `x & 2^k` keeps bit k.
pub bit_and_single : (k x : ℕ) → bit_and x (2 ^ k) ≡ bit x k * 2 ^ k
bit_and_single zero x = omega (arith, bit_and_halves x 1, bit_and-zero (x / 2), bit-zero x)
bit_and_single (suc k) x =
    let half : 2 * 2 ^ k / 2 ≡ 2 ^ k = omega arith in
    let even : 2 * 2 ^ k % 2 ≡ 0 = omega arith in
    let digits = bit_and_halves x (2 * 2 ^ k) in
    rw (pow-succ' 2 k, digits, half, even, bit_and_single k (x / 2), bit-suc x k) (omega arith)

-- Widths.
pub bit_and-le : (a b : ℕ) → bit_and a b ≤ a
bit_and-le a b = WellFounded.induction lt_wf {C = λ n. (m : ℕ) → bit_and n m ≤ n} a step b
  where
    step : (n : ℕ) → ((m : ℕ) → m < n → (b : ℕ) → bit_and m b ≤ m) → (b : ℕ) → bit_and n b ≤ n
    step zero ih b = omega (arith, zero-bit_and b)
    step (suc n) ih b =
        omega (arith, bit_and_halves (suc n) b, ih (suc n / 2) (omega arith) (b / 2))

pub bit_and-lt_right : (n a b : ℕ) → b < 2 ^ n → bit_and a b < 2 ^ n
bit_and-lt_right zero a b h = let e : b ≡ 0 = omega arith in rw e (omega (arith, bit_and-zero a))
bit_and-lt_right (suc n) a b h =
    let h' : b < 2 * 2 ^ n = rw (pow-succ' 2 n) at h in
    rw (pow-succ' 2 n)
      (omega (arith, bit_and_halves a b, bit_and-lt_right n (a / 2) (b / 2) (omega arith)))

pub bit_or-lt : (n a b : ℕ) → a < 2 ^ n → b < 2 ^ n → bit_or a b < 2 ^ n
bit_or-lt zero a b h k = let e : b ≡ 0 = omega arith in rw e (omega (arith, bit_or-zero a))
bit_or-lt (suc n) a b h k =
    let h' : a < 2 * 2 ^ n = rw (pow-succ' 2 n) at h in
    let k' : b < 2 * 2 ^ n = rw (pow-succ' 2 n) at k in
    rw (pow-succ' 2 n)
      (omega (arith, bit_or_halves a b, bit_or-lt n (a / 2) (b / 2) (omega arith) (omega arith)))

pub bit_xor-lt : (n a b : ℕ) → a < 2 ^ n → b < 2 ^ n → bit_xor a b < 2 ^ n
bit_xor-lt zero a b h k =
    let e : a ≡ 0 = omega arith in let e' : b ≡ 0 = omega arith in rw (e, e') (omega arith)
bit_xor-lt (suc n) a b h k =
    let h' : a < 2 * 2 ^ n = rw (pow-succ' 2 n) at h in
    let k' : b < 2 * 2 ^ n = rw (pow-succ' 2 n) at k in
    rw (pow-succ' 2 n)
      (omega (arith, bit_xor_halves' a b, bit_xor-lt n (a / 2) (b / 2) (omega arith) (omega arith)))

-- `(q << n) | r` of disjoint fields is a sum.
pub bit_or_disjoint : (n q r : ℕ) → r < 2 ^ n → bit_or (q * 2 ^ n) r ≡ q * 2 ^ n + r
bit_or_disjoint zero q r h = let e : r ≡ 0 = omega arith in rw e (bit_or-zero _ ∙ omega arith)
bit_or_disjoint (suc n) q r h =
    let h' : r < 2 * 2 ^ n = rw (pow-succ' 2 n) at h in
    let shape : q * 2 ^ suc n ≡ 2 * (q * 2 ^ n) =
      omega (arith, ap (λ (t : ℕ). q * t) (pow-succ' 2 n)) in
    let half : 2 * (q * 2 ^ n) / 2 ≡ q * 2 ^ n = omega arith in
    let even : 2 * (q * 2 ^ n) % 2 ≡ 0 = omega arith in
    rw
      (
        shape,
        bit_or_halves (2 * (q * 2 ^ n)) r,
        half,
        even,
        bit_or_disjoint n q (r / 2) (omega arith),
      )
      (omega arith)

scaled : (b m : ℕ) → b ≤ 1 → 1 ≤ m → (b * m != 0) ≡ (b == 1)
scaled zero m h pos = ground arith
scaled (suc zero) m h pos = ground arith
scaled (suc (suc b)) m h pos = absurd (omega arith)

-- `(x & 2^k) != 0` tests bit k.
pub has-bit : (k x : ℕ) → has x (2 ^ k) ≡ (bit x k == 1)
has-bit k x =
    ap (λ (t : ℕ). t != 0) (bit_and_single k x)
    ∙ scaled (bit x k) (2 ^ k) (bit-le-one x k) (one-le-pow k 2 (omega arith))

-- `x & m` for a mask m of n ones above m zeros.
pub bit_and_field : (n m x : ℕ) → bit_and x ((2 ^ n - 1) * 2 ^ m) ≡ x / 2 ^ m % 2 ^ n * 2 ^ m
bit_and_field n zero x =
    let e : (2 ^ n - 1) * 2 ^ zero ≡ 2 ^ n - 1 = omega arith in
    let e' : x / 2 ^ zero ≡ x = omega arith in rw (e, e', bit_and_low n x) (omega arith)
bit_and_field n (suc m) x =
    let mask : (2 ^ n - 1) * 2 ^ suc m ≡ 2 * ((2 ^ n - 1) * 2 ^ m) =
      omega (arith, ap (λ (t : ℕ). (2 ^ n - 1) * t) (pow-succ' 2 m)) in
    let half : 2 * ((2 ^ n - 1) * 2 ^ m) / 2 ≡ (2 ^ n - 1) * 2 ^ m = omega arith in
    let even : 2 * ((2 ^ n - 1) * 2 ^ m) % 2 ≡ 0 = omega arith in
    let shift : x / 2 ^ suc m ≡ x / 2 / 2 ^ m =
      rw (pow-succ' 2 m) (sym (div-div-eq-div-mul x 2 (2 ^ m))) in
    let out : x / 2 / 2 ^ m % 2 ^ n * 2 ^ suc m ≡ 2 * (x / 2 / 2 ^ m % 2 ^ n * 2 ^ m) =
      omega (arith, ap (λ (t : ℕ). x / 2 / 2 ^ m % 2 ^ n * t) (pow-succ' 2 m)) in
    rw
      (
        mask,
        shift,
        out,
        bit_and_halves x (2 * ((2 ^ n - 1) * 2 ^ m)),
        half,
        even,
        bit_and_field n m (x / 2),
      )
      (omega arith)

pub zero-bit_or : (b : ℕ) → bit_or 0 b ≡ b
zero-bit_or =
    by_halves (λ x. bit_or 0 x ≡ x) refl (λ n half. omega (arith, bit_or_halves 0 (suc n), half))

pub bit_or_comm : (a b : ℕ) → bit_or a b ≡ bit_or b a
bit_or_comm a b = WellFounded.induction lt_wf {C = λ n. (m : ℕ) → bit_or n m ≡ bit_or m n} a step b
  where
    step :
        (n : ℕ)
        → ((m : ℕ) → m < n → (b : ℕ) → bit_or m b ≡ bit_or b m)
        → (b : ℕ) → bit_or n b ≡ bit_or b n
    step zero ih b = omega (arith, zero-bit_or b, bit_or-zero b)
    step (suc n) ih b = omega (
      arith,
      bit_or_halves (suc n) b,
      bit_or_halves b (suc n),
      ih (suc n / 2) (omega arith) (b / 2),
    )

-- `r | (q << n)` with the low field first.
pub bit_or_disjoint' : (n q r : ℕ) → r < 2 ^ n → bit_or r (q * 2 ^ n) ≡ q * 2 ^ n + r
bit_or_disjoint' n q r h = bit_or_comm r (q * 2 ^ n) ∙ bit_or_disjoint n q r h

-- A power of two has one bit.
pub bit_power_self : (j : ℕ) → bit (2 ^ j) j ≡ 1
bit_power_self j =
    let one : 2 ^ j ≡ 1 * 2 ^ j = omega arith in
    let index : j ≡ j + 0 = omega arith in
    ap (λ (t : ℕ). bit t j) one
    ∙ ap (bit (1 * 2 ^ j)) index
    ∙ bit-shl_high 1 j 0
    ∙ omega (arith, bit-zero 1)

bit_one : (d : ℕ) → bit 1 (suc d) ≡ 0
bit_one d = bit-suc 1 d ∙ bit_of_zero d

pub bit_power_other : (j k : ℕ) → k ≢ j → bit (2 ^ j) k ≡ 0
bit_power_other j k ne =
    let one : 2 ^ j ≡ 1 * 2 ^ j = omega arith in
    ap (λ (t : ℕ). bit t k) one ∙ (elim (dec_lt k j) [
      | yes low ↦ bit-shl_low 1 j k low
      | no high ↦
          let index : k ≡ j + suc (k - j - 1) = omega arith in
          ap (bit (1 * 2 ^ j)) index ∙ bit-shl_high 1 j (suc (k - j - 1)) ∙ bit_one (k - j - 1)
    ])

-- 2 ^ (m + n), for the native numbers.
pub pow_split : (m n : ℕ) → 2 ^ (m + n) ≡ 2 ^ m * 2 ^ n
pow_split zero n = let e : zero + n ≡ n = omega arith in rw e (omega arith)
pow_split (suc m) n =
    let e : suc m + n ≡ suc (m + n) = omega arith in
    rw (e, pow-suc, pow-suc 2 m, pow_split m n) (omega arith)

-- `x & ~(2 ^ k - 1)` on words.
pub bit_and_clear :
    (k x : ℕ) → k ≤ 32 → x < 2 ^ 32 → bit_and x (2 ^ 32 - 1 - (2 ^ k - 1)) ≡ x / 2 ^ k * 2 ^ k
bit_and_clear k x hk hx =
    let index : 32 - k + k ≡ 32 = omega arith in
    let whole : 2 ^ (32 - k) * 2 ^ k ≡ 2 ^ 32 =
      sym (pow_split (32 - k) k) ∙ ap (λ (t : ℕ). 2 ^ t) index in
    let some_k : 0 < 2 ^ k = one-le-pow k 2 (omega arith) in
    let times : (2 ^ (32 - k) - 1) * 2 ^ k + 2 ^ k ≡ 2 ^ (32 - k) * 2 ^ k =
      factor (2 ^ (32 - k)) (2 ^ k) (one-le-pow (32 - k) 2 (omega arith)) in
    let mask : 2 ^ 32 - 1 - (2 ^ k - 1) ≡ (2 ^ (32 - k) - 1) * 2 ^ k = omega arith in
    let below : x / 2 ^ k < 2 ^ (32 - k) =
      lt_of_mul-lt-mul_left (2 ^ k) (omega (arith, div-add-mod x (2 ^ k))) in
    rw (mask, bit_and_field (32 - k) k x, mod-eq_of_lt below) refl
  where
    factor : (a b : ℕ) → 1 ≤ a → (a - 1) * b + b ≡ a * b
    factor zero b h = omega arith
    factor (suc a) b h = let less : suc a - 1 ≡ a = omega arith in rw less (omega arith)
