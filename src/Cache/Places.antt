-- ===== src/Cache/Places.antt =====
-- Where a block stands: its set and its entry determine it, and the castout address is its own.
use open_power_mac.Prelude.{
  ℕ, ◌+◌, ◌*◌, ◌/◌, ◌%◌, ◌^◌, ◌<◌, ◌≡◌, ◌∙◌, sym, ap, ap₂, bit_and, bit_or, arith, shl32, not32,
  ◌>>>◌, has, true, ◌==◌,
}
use open_power_mac.Prelude.BitLaws.{
  bit_and_low, bit_or_disjoint, bit_or-lt, bit_and_clear, has-bit, bit, bit-zero,
}
use open_power_mac.Cache.Bytes.{set_of, tag_of, tv_of, block_base}

pub set_of_value : (a : ℕ) → set_of a ≡ a / 32 % 128
unfolding set_of
set_of_value a = bit_and_low 7 (a >>> 5)

pub set_of-lt : (a : ℕ) → set_of a < 128
set_of-lt a = omega (arith, set_of_value a)

pub tv_of_value : (a : ℕ) → a < 2 ^ 32 → tv_of a ≡ a / 4096 * 2 + 1
unfolding tv_of tag_of
tv_of_value a h =
    let shift : shl32 (a >>> 12) 1 ≡ a / 4096 * 2 = omega arith in
    ap (λ (t : ℕ). bit_or t 1) shift ∙ bit_or_disjoint 1 (a / 4096) 1 (omega arith)

pub line_offset : (a : ℕ) → bit_and a 31 ≡ a % 32
line_offset a = bit_and_low 5 a

pub line_base : (a : ℕ) → a < 2 ^ 32 → bit_and a (not32 31) ≡ a / 32 * 32
line_base a h = bit_and_clear 5 a (omega arith) h

-- The block's own address, of an entry that may be valid.
pub block_base_value :
    (set tag : ℕ) → set < 128 → tag < 2 ^ 20 → block_base set tag ≡ (tag * 128 + set) * 32
unfolding block_base
block_base_value set tag hs ht =
    let high : shl32 tag 12 ≡ tag * 2 ^ 12 = omega arith in
    let low : shl32 set 5 ≡ set * 32 = omega arith in
    ap₂ bit_or high low ∙ bit_or_disjoint 12 tag (set * 32) (omega arith) ∙ omega arith

pub block_base-lt : (set tag : ℕ) → block_base set tag < 2 ^ 32
unfolding block_base
block_base-lt set tag = bit_or-lt 32 (shl32 tag 12) (shl32 set 5) (omega arith) (omega arith)

pub line_base-lt : (a : ℕ) → a < 2 ^ 32 → bit_and a (not32 31) < 2 ^ 32
line_base-lt a h = omega (arith, line_base a h)

-- The set and the entry are those of the block, and determine it.
pub same_block_place :
    (a b : ℕ)
    → a < 2 ^ 32
    → b < 2 ^ 32
    → (a >>> 5) ≡ (b >>> 5)
    → (set_of a ≡ set_of b) × (tv_of a ≡ tv_of b)
same_block_place a b ha hb h = (
  omega (arith, set_of_value a, set_of_value b),
  omega (arith, tv_of_value a ha, tv_of_value b hb),
)

pub place_same_block :
    (a b : ℕ)
    → a < 2 ^ 32
    → b < 2 ^ 32
    → set_of a ≡ set_of b
    → tv_of a ≡ tv_of b
    → (a >>> 5) ≡ (b >>> 5)
place_same_block a b ha hb s t =
    omega (arith, set_of_value a, set_of_value b, tv_of_value a ha, tv_of_value b hb)

-- An address is in the block that a set gives up exactly when the entry is that of the address.
pub castout_place :
    (a set t : ℕ)
    → a < 2 ^ 32
    → set < 128
    → t < 2 ^ 21
    → set_of a ≡ set
    → tv_of a ≡ t
    → (a >>> 5) ≡ (block_base set (t >>> 1) >>> 5)
castout_place a set t ha hs ht s e =
    omega (arith, set_of_value a, tv_of_value a ha, block_base_value set (t >>> 1) hs (omega arith))

pub castout_only :
    (a set t : ℕ)
    → a < 2 ^ 32
    → set < 128
    → t < 2 ^ 21
    → t % 2 ≡ 1
    → (a >>> 5) ≡ (block_base set (t >>> 1) >>> 5)
    → (set_of a ≡ set) × (tv_of a ≡ t)
castout_only a set t ha hs ht odd h =
    let base = block_base_value set (t >>> 1) hs (omega arith) in
    (omega (arith, set_of_value a, base), omega (arith, tv_of_value a ha, base))

-- `tv & 1`.
pub valid_odd : (t : ℕ) → has t 1 ≡ true → t % 2 ≡ 1
valid_odd t h =
    let low : (bit t 0 == 1) ≡ true = sym (has-bit 0 t) ∙ h in
    let first : bit t 0 ≡ t % 2 = bit-zero t in ground (arith, low, first)
