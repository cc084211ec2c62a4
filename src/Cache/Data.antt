-- ===== src/Cache/Data.antt =====
-- The reads and writes of the first-level data cache (memRead and memWrite of core/src/cache.cpp). The
-- watchpoints, with the value that one can force, and the censuses of accesses, which only count, are
-- left out.
use open_power_mac.Prelude.{
  ℕ, zero, suc, ◌+◌, ◌*◌, ◌^◌, Bool, true, Option, none, some, not, ◌||◌, has, ◌==◌, ◌!=◌, ltb,
  if◌then◌else◌, u8, u16, u32, u64, sub32, bit_and, bit_or, bit_xor, not32, ◌>>>◌,
}
use open_power_mac.Cpu.{CpuState}
use open_power_mac.Cache.Bytes.{
  set_of, wimg_w, wimg_i, line_load_be, line_store_be, from_offset, at_offset,
}
use open_power_mac.Cache.Lower.{Lower}
use open_power_mac.Cache.Index.{
  Cache, set_way, stamp, line_way, set_dirty, on_below, line_fill, line_victim,
}

abbrev pub dce_on : CpuState → Bool
dce_on st = has st.hid0 0x4000

module _ {S : Type 0} (lo : Lower S) where
  -- A miss: a way for the block, its fill and its age.
  unfoldable pub allocate : ℕ → Cache S → ℕ × Cache S
  allocate pa c =
      let (w, c') = line_victim lo pa c in
      (w, stamp (set_of pa) w (line_fill lo (set_of pa) w pa c'))

  unfoldable pub hit_or_fill : ℕ → Option ℕ → Cache S → ℕ × Cache S
  hit_or_fill pa none c = allocate pa c
  hit_or_fill pa (some w) c = (w, c)

  -- memRead within a block, the cache on.
  unfoldable pub read_block : ℕ → ℕ → Cache S → ℕ × Cache S
  read_block pa len c =
      let (hit, c1) = line_way pa c in
      let (w, c2) = hit_or_fill pa hit c1 in
      (line_load_be (from_offset (bit_and pa 31) (c2.ways (set_of pa) w).b) len, c2)

  -- An access that crosses a block, a byte at a time; a byte crosses nothing.
  unfoldable pub read_split : ℕ → ℕ → ℕ → Cache S → ℕ × Cache S
  read_split zero pa v c = (v, c)
  read_split (suc n) pa v c =
      let (b, c') = read_block (u32 pa) 1 c in read_split n (suc pa) (bit_or (u64 (v * 2 ^ 8)) b) c'

  unfoldable pub bus_read_around : ℕ → ℕ → Cache S → ℕ × Cache S
  bus_read_around pa len c =
      let size = if (len == 1) || (len == 2) || (len == 4) then len else 8 in
      let (v, s) = lo.bus_read pa size c.below in (v, record c { below = s })

  unfoldable pub mem_read : CpuState → ℕ → ℕ → ℕ → Cache S → ℕ × Cache S
  mem_read st pa len wimg c =
      if not (dce_on st) || has wimg wimg_i
      then bus_read_around pa len c
      else if ltb 32 (bit_and pa 31 + len)
      then read_split len pa 0 c
      else read_block pa len c

  unfoldable pub fetch_drop_range : ℕ → ℕ → S → S
  fetch_drop_range pa len s =
      let end = sub32 (u32 (pa + len)) 1 in
      let s' = lo.fetch_drop_at pa s in
      if bit_and (bit_xor pa end) (not32 31) != 0 then lo.fetch_drop_at end s' else s'

  unfoldable pub bus_write_around : ℕ → ℕ → ℕ → Cache S → Cache S
  bus_write_around pa len v = on_below (
      if len == 1
      then lo.bus_write pa 1 (u8 v)
      else if len == 2
      then lo.bus_write pa 2 (u16 v)
      else if len == 4
      then lo.bus_write pa 4 (u32 v)
      else lo.bus_write pa 8 v)

  -- `lineStoreBE` into a way.
  unfoldable pub store_way : ℕ → ℕ → ℕ → ℕ → Cache S → Cache S
  store_way pa len v w c =
      let e = c.ways (set_of pa) w in
      set_way (set_of pa) w
        (record e { b = at_offset (bit_and pa 31) (λ p. line_store_be p len v) e.b }) c

  -- memWrite of a write-through page within a block: no allocation on a miss.
  unfoldable pub write_through : ℕ → ℕ → ℕ → Cache S → Cache S
  write_through pa len v c =
      let (hit, c1) = line_way pa c in
      bus_write_around pa len v (elim hit [ none ↦ c1 | some w ↦ store_way pa len v w c1 ])

  -- memWrite within a block, the page write-back: allocation on a miss.
  unfoldable pub write_back : ℕ → ℕ → ℕ → Cache S → Cache S
  write_back pa len v c =
      let (hit, c1) = line_way pa c in
      let (w, c2) = hit_or_fill pa hit c1 in set_dirty (set_of pa) w true (store_way pa len v w c2)

  unfoldable pub write_block : ℕ → ℕ → ℕ → ℕ → Cache S → Cache S
  write_block pa len v wimg c =
      if has wimg wimg_w then write_through pa len v c else write_back pa len v c

  -- The bytes of a write that crosses a block, the highest first; each drops its own fetched block.
  unfoldable pub write_split : ℕ → ℕ → ℕ → ℕ → Cache S → Cache S
  write_split zero pa v wimg c = c
  write_split (suc n) pa v wimg c =
      let c' = on_below (fetch_drop_range (u32 pa) 1) c in
      write_split n (suc pa) v wimg (write_block (u32 pa) 1 (bit_and (v >>> (8 * n)) 0xff) wimg c')

  unfoldable pub mem_write : CpuState → ℕ → ℕ → ℕ → ℕ → Cache S → Cache S
  mem_write st pa len v wimg c =
      let c' = on_below (fetch_drop_range pa len) c in
      if not (dce_on st) || has wimg wimg_i
      then bus_write_around pa len v c'
      else if ltb 32 (bit_and pa 31 + len)
      then write_split len pa v wimg c'
      else write_block pa len v wimg c'
