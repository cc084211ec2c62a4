-- ===== src/OpenPic/Window.antt =====
-- The little-endian register window of machine/src/openpic.cpp: the byte swap at its edge undoes
-- itself, and what is written to a register is read back.
use open_power_mac.Prelude.{
  ℕ, ◌+◌, ◌-◌, ◌*◌, ◌/◌, ◌%◌, ◌^◌, ◌≤◌, ◌<◌, ◌≡◌, ◌∙◌, ◌≢◌, Bool, true, false, arith, ◌==◌,
  if◌then◌else◌, bit_and, bit_or, has, update, not32, ==_ne, update_same, dec_eq, flag, flag,
}
use open_power_mac.Prelude.BitLaws.{
  bit_and_field, bit_or_disjoint', has-bit, bit, bit-or, bit-and, bit-complement, bit_power_self,
  bit_power_other, bit-le-one,
}
use open_power_mac.OpenPic.State.{OpenPic, swap32}
use open_power_mac.OpenPic.Registers.{
  read, write, read_native, write_native, read_source, write_vp, in_source_window, in_global_window,
  source_of, global_index,
}

pub swap32_bytes :
    (v : ℕ)
    → v < 2 ^ 32
    → swap32 v ≡ v / 2 ^ 24 + v / 2 ^ 16 % 256 * 2 ^ 8 + v / 2 ^ 8 % 256 * 2 ^ 16 + v % 256 * 2 ^ 24
unfolding swap32
swap32_bytes v h =
    let a : bit_and (v / 2 ^ 8) 0xff00 ≡ v / 2 ^ 16 % 256 * 2 ^ 8 =
      bit_and_field 8 8 (v / 2 ^ 8) ∙ omega arith in
    let b : bit_and (v * 2 ^ 8 % 2 ^ 32) 0xff_0000 ≡ v / 2 ^ 8 % 256 * 2 ^ 16 =
      bit_and_field 8 16 (v * 2 ^ 8 % 2 ^ 32) ∙ omega arith in
    let c : v * 2 ^ 24 % 2 ^ 32 ≡ v % 256 * 2 ^ 24 = omega arith in
    rw
      (
        a,
        b,
        c,
        bit_or_disjoint' 8 (v / 2 ^ 16 % 256) (v / 2 ^ 24) (omega arith),
        bit_or_disjoint' 16 (v / 2 ^ 8 % 256) (v / 2 ^ 16 % 256 * 2 ^ 8 + v / 2 ^ 24) (omega arith),
      )
      (bit_or_disjoint' 24 (v % 256) _ (omega arith) ∙ omega arith)

pub swap32-lt : (v : ℕ) → v < 2 ^ 32 → swap32 v < 2 ^ 32
swap32-lt v h = rw (swap32_bytes v h) (omega arith)

-- The byte swap of the window undoes itself on words.
pub swap32-swap32 : (v : ℕ) → v < 2 ^ 32 → swap32 (swap32 v) ≡ v
swap32-swap32 v h = rw (swap32_bytes (swap32 v) (swap32-lt v h), swap32_bytes v h) (omega arith)

-- Where the registers of the window lie.
abbrev pub vp_offset : ℕ → ℕ
vp_offset s = 0x1_0000 + s * 0x20

abbrev pub dest_offset : ℕ → ℕ
dest_offset s = 0x1_0000 + s * 0x20 + 0x10

abbrev pub global_offset : ℕ → ℕ
global_offset i = 0x1000 + i * 4

dest_selected : (s : ℕ) → has (dest_offset s) 0x10 ≡ true
dest_selected s = has-bit 4 (dest_offset s) ∙ (unfold bit in ground arith)

vp_selected : (s : ℕ) → has (vp_offset s) 0x10 ≡ false
vp_selected s = has-bit 4 (vp_offset s) ∙ (unfold bit in ground arith)

pub source_window :
    (s off : ℕ)
    → s < 64
    → vp_offset s ≤ off
    → off < vp_offset s + 0x20
    → (in_source_window off ≡ true) × (source_of off ≡ s)
source_window s off h lo hi = (ground arith, omega arith)

global_window :
    (i : ℕ)
    → i < 0x400
    → (in_source_window (global_offset i) ≡ false)
      × (in_global_window (global_offset i) ≡ true)
      × (global_index (global_offset i) ≡ i)
global_window i h = (ground arith, ground arith, omega arith)

module _ (p : OpenPic) (s : ℕ) (h : s < 64) where
  pub write_dest :
      (n : ℕ) → write_native p (dest_offset s) n ≡ record p { dest = update p.dest s n }
  unfolding write_native
  write_dest n =
      let (inside, index) = source_window s (dest_offset s) h (omega arith) (omega arith) in
      rw (inside, dest_selected s, index)

  pub write_vp_lem : (n : ℕ) → write_native p (vp_offset s) n ≡ write_vp p s n
  unfolding write_native
  write_vp_lem n =
      let (inside, index) = source_window s (vp_offset s) h (omega arith) (omega arith) in
      rw (inside, vp_selected s, index)

  read_dest : read_native p (dest_offset s) ≡ (p.dest s, p)
  unfolding read_native read_source
  read_dest =
      let (inside, index) = source_window s (dest_offset s) h (omega arith) (omega arith) in
      rw (inside, index, dest_selected s) (ground arith)

  pub read_vp :
      read_native p (vp_offset s) ≡ (if p.pending s then bit_or (p.vp s) 0x4000_0000 else p.vp s, p)
  unfolding read_native read_source
  read_vp =
      let (inside, index) = source_window s (vp_offset s) h (omega arith) (omega arith) in
      rw (inside, index, vp_selected s) (ground arith)

write_global :
    (p : OpenPic) (i n : ℕ) → i < 0x400 → (write_native p (global_offset i) n).global i ≡ n
unfolding write_native
write_global p i n h =
    let (outside, inside, index) = global_window i h in rw (outside, inside, index) (ground arith)

read_global : (p : OpenPic) (i : ℕ) → i < 0x400 → read_native p (global_offset i) ≡ (p.global i, p)
unfolding read_native
read_global p i h = let (outside, inside, index) = global_window i h in rw (outside, inside, index)

-- A word stored to a destination or to a global register is loaded back.
pub read-write_plain :
    (p : OpenPic) (v : ℕ)
    → v < 2 ^ 32
    → ((s : ℕ) → s < 64 → (read (write p (dest_offset s) v 4) (dest_offset s) 4).0 ≡ v)
      × ((i : ℕ) → i < 0x400 → (read (write p (global_offset i) v 4) (global_offset i) 4).0 ≡ v)
unfolding read write
read-write_plain p v h = (
  λ s lt.
      rw (write_dest p s lt (swap32 v), read_dest _ s lt, update_same p.dest s (swap32 v))
        (swap32-swap32 v h),
  λ i lt. rw (read_global _ i lt, write_global p i (swap32 v) lt) (swap32-swap32 v h),
)

pub written_vp : (p : OpenPic) (s n : ℕ) → (write_vp p s n).vp s ≡ bit_and n (not32 0x4000_0000)
unfolding write_vp
written_vp p s n = ground arith

-- The stored word with bit 30 cleared, and set again by a pending source.
activity_bits :
    (up : Bool) (n k : ℕ)
    → k < 32
    → bit
        (if up
          then bit_or (bit_and n (not32 0x4000_0000)) 0x4000_0000
          else bit_and n (not32 0x4000_0000))
        k
      ≡ (if k == 30 then flag up else bit n k)
activity_bits up n k h = elim (dec_eq k 30) [
  | yes e ↦ rw e (at_activity up)
  | no ne ↦ rw (==_ne k 30 ne) (elsewhere up ne)
]
  where
    cleared : (j : ℕ) → j < 32 → bit (not32 0x4000_0000) j ≡ 1 - bit (2 ^ 30) j
    cleared j lt = bit-complement 32 (2 ^ 30) j (omega arith) lt

    at_activity :
        (b : Bool)
        → bit
            (if b
              then bit_or (bit_and n (not32 0x4000_0000)) 0x4000_0000
              else bit_and n (not32 0x4000_0000))
            30
          ≡ flag b
    at_activity true =
        rw (bit-or, bit-and, cleared 30 (omega arith), bit_power_self 30) (omega arith)
    at_activity false = rw (bit-and, cleared 30 (omega arith), bit_power_self 30) (omega arith)

    elsewhere :
        (b : Bool)
        → k ≢ 30
        → bit
            (if b
              then bit_or (bit_and n (not32 0x4000_0000)) 0x4000_0000
              else bit_and n (not32 0x4000_0000))
            k
          ≡ bit n k
    elsewhere true ne =
        rw (bit-or, bit-and, cleared k h, bit_power_other 30 k ne) (omega (arith, bit-le-one n k))
    elsewhere false ne =
        rw (bit-and, cleared k h, bit_power_other 30 k ne) (omega (arith, bit-le-one n k))

-- A word stored to a source's vector and priority is loaded back bit by bit, but for bit 30, which
-- reads as the source's pending flag after the store.
pub read-write_vp :
    (p : OpenPic) (s n k : ℕ)
    → s < 64
    → k < 32
    → bit (read_native (write_native p (vp_offset s) n) (vp_offset s)).0 k
      ≡ (if k == 30 then flag ((write_native p (vp_offset s) n).pending s) else bit n k)
read-write_vp p s n k lt hk =
    rw (write_vp_lem p s lt n, read_vp (write_vp p s n) s lt, written_vp p s n)
      (activity_bits ((write_vp p s n).pending s) n k hk)
