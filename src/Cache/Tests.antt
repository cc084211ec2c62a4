-- ===== src/Cache/Tests.antt =====
-- Runs of the caches over a small memory.
use open_power_mac.Prelude.{
  ℕ, ◌+◌, ◌*◌, ◌%◌, ◌^◌, ◌<◌, ◌≡◌, refl, sym, ap, ◌∙◌, inl, inr, true, false, none, arith, ◌>>>◌,
}
use mathlib.Core.Bool.{true≢false}
use open_power_mac.Cpu.{CpuState}
use open_power_mac.Cpu.Samples.{sample_state}
use open_power_mac.Cache.Bytes.{line_load_be}
use open_power_mac.Cache.Lower.{IsBacking, put_line}
use open_power_mac.Cache.Places.{line_offset, tv_of_value}
use open_power_mac.Cache.Index.{Cache, line_way_quiet}
use open_power_mac.Cache.View.{Holds, Coherent, cached_byte, cached_byte_miss}
use open_power_mac.Cache.StoredBytes.{Size, big_endian, line_load_be_lem}
use open_power_mac.Cache.StoreLaws.{put_bytes}
use open_power_mac.Cache.ReadLaws.{IsBytes, mem_read_flat}
use open_power_mac.Cache.WriteLaws.{mem_write_flat}
use open_power_mac.Cache.LineLaws.{dcbz_line_flat}
use open_power_mac.Cache.CleanLaws.{dcb_clean_flat}
use open_power_mac.Cache.RoundTrip.{put_bytes-IsBytes, mem_read-mem_write}
use open_power_mac.Cache.Data.{mem_read, mem_write}
use open_power_mac.Cache.Maintain.{dcbz_line, dcb_clean}
use open_power_mac.Cache.Second.{
  Bus, Backside, empty_line, holds_tag, backside, IsRam, Has, L2Coherent, l2_byte, l2_byte_miss,
}
use open_power_mac.Cache.Second.Memory.{backside-IsBacking}

-- A memory of bytes as a bus.
abbrev flat_bus : Bus (ℕ → ℕ)
flat_bus = record {
  read_line32 = λ base m. (λ k. m ((base >>> 5) * 32 + k), m);
  write_line32 = put_line;
  read = λ pa len m. (big_endian len (λ k. m (pa + k)), m);
  write = put_bytes_at;
}
  where
    put_bytes_at : ℕ → ℕ → ℕ → (ℕ → ℕ) → ℕ → ℕ
    put_bytes_at pa len v m = put_bytes len pa v m

abbrev itself : (ℕ → ℕ) → ℕ → ℕ
itself m = m

flat_bus-IsRam : IsRam flat_bus itself
flat_bus-IsRam = record {
  read_line = λ base a m ha same. ap m (omega (arith, same, line_offset a));
  read_ram = λ base a m ha. refl;
  write_ram = λ base b a m ha. refl;
}

abbrev switched_on : CpuState
switched_on = record sample_state { hid0 = 0x4000; l2cr = 0x8000_0000 }

-- A second level of 256 KB with nothing in it, and an empty first level.
abbrev empty_backside : Backside (ℕ → ℕ)
empty_backside = record {
  l2 = λ i. empty_line;
  l2_sets = 0x1000;
  l2_clock = 0;
  l2_inert = false;
  fetch_base = λ i. 1;
  bus = λ a. a % 256;
}

abbrev empty_cache : Cache (Backside (ℕ → ℕ))
empty_cache = record {
  ways = λ set w. record { tv = 0; age = 0; b = λ k. 0; d = false };
  clock = 0;
  below = empty_backside;
}

nothing_below : (a i : ℕ) → ¬ Has empty_backside a i
unfolding Has holds_tag
nothing_below a i h = true≢false (sym h)

nothing_held : (a w : ℕ) → a < 2 ^ 32 → ¬ Holds empty_cache a w
unfolding Holds
nothing_held a w ha h = absurd (omega (arith, h.1, tv_of_value a ha))

empty_backside-L2Coherent : L2Coherent itself empty_backside
empty_backside-L2Coherent = record {
  sized = refl;
  active = refl;
  placed = λ i a ha h. absurd (nothing_below a i h);
  unique = λ i j a ha h k. absurd (nothing_below a i h);
  known = λ i h. omega arith;
  clean = λ i a ha h. absurd (nothing_below a i h);
}

empty_cache-Coherent : Coherent (L2Coherent itself) (l2_byte itself) empty_cache
empty_cache-Coherent = record {
  lower = empty_backside-L2Coherent;
  unique = λ a w v ha h k. absurd (nothing_held a w ha h);
  known = λ set w hs hw h. omega arith;
  clean = λ a w ha h. absurd (nothing_held a w ha h);
}

empty_cache-IsBytes : IsBytes (cached_byte (l2_byte itself) empty_cache)
empty_cache-IsBytes a ha =
    let at : cached_byte (l2_byte itself) empty_cache a ≡ a % 256 =
      cached_byte_miss (L2Coherent itself) (l2_byte itself) a empty_cache (λ w. nothing_held a w ha)
      ∙ l2_byte_miss itself empty_backside empty_backside-L2Coherent a ha (nothing_below a) in
    omega (arith, at)

backside-IsBacking_example :
    IsBacking (backside flat_bus switched_on) (L2Coherent itself) (l2_byte itself)
backside-IsBacking_example = backside-IsBacking flat_bus itself flat_bus-IsRam switched_on refl

-- A word written across the end of a block.
abbrev written : Cache (Backside (ℕ → ℕ))
written = mem_write (backside flat_bus switched_on) switched_on 0x101e 4 0x1234_5678 2 empty_cache

four_bytes : Size 4
unfolding Size
four_bytes = inr (inr (inl refl))

mem_write_flat_example :
    Coherent (L2Coherent itself) (l2_byte itself) written
    × (cached_byte (l2_byte itself) written 0x1020
        ≡ put_bytes 4 0x101e 0x1234_5678 (cached_byte (l2_byte itself) empty_cache) 0x1020)
mem_write_flat_example =
    mem_write_flat (backside flat_bus switched_on) (L2Coherent itself) (l2_byte itself)
      (backside-IsBacking flat_bus itself flat_bus-IsRam switched_on refl) switched_on 0x101e 4
      0x1234_5678 2 0x1020 empty_cache empty_cache-Coherent refl refl refl four_bytes (omega arith)
      (omega arith) (omega arith) (omega arith)

written-Coherent : Coherent (L2Coherent itself) (l2_byte itself) written
written-Coherent = mem_write_flat_example.0

written-IsBytes : IsBytes (cached_byte (l2_byte itself) written)
written-IsBytes a ha =
    let at =
      (mem_write_flat (backside flat_bus switched_on) (L2Coherent itself) (l2_byte itself)
        (backside-IsBacking flat_bus itself flat_bus-IsRam switched_on refl) switched_on 0x101e 4
        0x1234_5678 2 a empty_cache empty_cache-Coherent refl refl refl four_bytes (omega arith)
        (omega arith) (omega arith) ha).1 in
    omega (
      arith,
      at,
      put_bytes-IsBytes 4 0x101e 0x1234_5678 (cached_byte (l2_byte itself) empty_cache)
          empty_cache-IsBytes a ha,
    )

mem_read_flat_example :
    ((mem_read (backside flat_bus switched_on) switched_on 0x101c 4 2 written).0
      ≡ big_endian 4 (λ k. cached_byte (l2_byte itself) written (0x101c + k)))
    × Coherent
        (L2Coherent itself)
        (l2_byte itself)
        ((mem_read (backside flat_bus switched_on) switched_on 0x101c 4 2 written).1)
    × (cached_byte
          (l2_byte itself)
          ((mem_read (backside flat_bus switched_on) switched_on 0x101c 4 2 written).1)
          0x101f
        ≡ cached_byte (l2_byte itself) written 0x101f)
mem_read_flat_example =
    mem_read_flat (backside flat_bus switched_on) (L2Coherent itself) (l2_byte itself)
      (backside-IsBacking flat_bus itself flat_bus-IsRam switched_on refl) switched_on 0x101c 4 2
      0x101f written written-Coherent written-IsBytes refl refl four_bytes (omega arith)
      (omega arith) (omega arith)

dcbz_line_flat_example :
    Coherent
      (L2Coherent itself)
      (l2_byte itself)
      (dcbz_line (backside flat_bus switched_on) 0x1008 written)
    × (cached_byte
          (l2_byte itself)
          (dcbz_line (backside flat_bus switched_on) 0x1008 written)
          0x101f
        ≡ put_line 0x1008 (λ k. 0) (cached_byte (l2_byte itself) written) 0x101f)
dcbz_line_flat_example =
    dcbz_line_flat (backside flat_bus switched_on) (L2Coherent itself) (l2_byte itself)
      (backside-IsBacking flat_bus itself flat_bus-IsRam switched_on refl) 0x1008 0x101f written
      written-Coherent (omega arith) (omega arith)

dcb_clean_flat_example :
    (l2_byte itself (dcb_clean (backside flat_bus switched_on) 0x1000 true written).below 0x101f
      ≡ cached_byte (l2_byte itself) written 0x101f)
    × (line_way_quiet 0x1000 (dcb_clean (backside flat_bus switched_on) 0x1000 true written) ≡ none)
    × Coherent
        (L2Coherent itself)
        (l2_byte itself)
        (dcb_clean (backside flat_bus switched_on) 0x1000 true written)
    × (cached_byte
          (l2_byte itself)
          (dcb_clean (backside flat_bus switched_on) 0x1000 true written)
          0x101e
        ≡ cached_byte (l2_byte itself) written 0x101e)
dcb_clean_flat_example =
    dcb_clean_flat (backside flat_bus switched_on) (L2Coherent itself) (l2_byte itself)
      (backside-IsBacking flat_bus itself flat_bus-IsRam switched_on refl) 0x1000 0x101e 0x101f true
      written written-Coherent (omega arith) (omega arith) (omega arith) (omega arith)

mem_read-mem_write_example :
    ((mem_read
        (backside flat_bus switched_on)
        switched_on
        0x203e
        4
        2
        (mem_write (backside flat_bus switched_on) switched_on 0x203e 4 0x1_2345_6789 2 written)).0
      ≡ 0x2345_6789)
    × Coherent
        (L2Coherent itself)
        (l2_byte itself)
        (mem_write (backside flat_bus switched_on) switched_on 0x203e 4 0x1_2345_6789 2 written)
mem_read-mem_write_example =
    mem_read-mem_write flat_bus itself flat_bus-IsRam switched_on 0x203e 4 0x1_2345_6789 2 written
      refl refl refl refl written-Coherent written-IsBytes four_bytes (omega arith) (omega arith)
      (omega arith)

line_load_be_lem_example : line_load_be (λ k. k + 1) 4 ≡ big_endian 4 (λ k. k + 1)
line_load_be_lem_example = line_load_be_lem (λ k. k + 1) 4 four_bytes (λ k h. omega arith)
