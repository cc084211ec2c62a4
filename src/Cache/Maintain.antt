-- ===== src/Cache/Maintain.antt =====
-- The dcb instructions, the snoop of a bus master, the flush and the looks of an instruction fetch into
-- the data cache (core/src/cache.cpp).
use open_power_mac.Prelude.{
  ℕ, zero, suc, ◌+◌, ◌^◌, Bool, true, false, Option, none, some, ◌||◌, ◌&&◌, has, ◌==◌, ltb,
  if◌then◌else◌, u32, sub32, bit_and, not32, ◌>>>◌,
}
use open_power_mac.Cpu.{CpuState}
use open_power_mac.Cache.Bytes.{Line, word_at, set_of, tv_of, block_base}
use open_power_mac.Cache.Lower.{Lower}
use open_power_mac.Cache.Index.{
  Cache, set_way, stamp, line_way_quiet, line_way, set_tv, set_dirty, on_below, line_push,
  line_victim,
}
use open_power_mac.Cache.Data.{dce_on}

-- A block as an instruction fetch sees it, when the data cache is on and has it.
unfoldable pub l1d_read_line : {S : Type 0} → CpuState → ℕ → Cache S → Option Line
l1d_read_line st pa c =
    if dce_on st
    then elim (line_way_quiet pa c) [ none ↦ none | some w ↦ some (c.ways (set_of pa) w).b ]
    else none

unfoldable pub l1d_peek32 : {S : Type 0} → CpuState → ℕ → Cache S → Option ℕ
l1d_peek32 st pa c =
    if dce_on st
    then elim (line_way_quiet pa c) [
      | none ↦ none
      | some w ↦ some (word_at (c.ways (set_of pa) w).b (bit_and (bit_and pa 31) (not32 3)))
    ]
    else none

module _ {S : Type 0} (lo : Lower S) where
  unfoldable pub dcbz_hit : ℕ → Option ℕ → Cache S → ℕ × Cache S
  dcbz_hit pa (some w) c = (w, c)
  dcbz_hit pa none c =
      let (w, c') = line_victim lo pa c in
      (w, stamp (set_of pa) w (set_tv (set_of pa) w (tv_of pa) c'))

  -- dcbz: the block is conjured, without a fill.
  unfoldable pub dcbz_line : ℕ → Cache S → Cache S
  dcbz_line pa c =
      let (hit, c1) = line_way pa (on_below (lo.fetch_drop_at pa) c) in
      let (w, c2) = dcbz_hit pa hit c1 in
      set_way (set_of pa) w (record (c2.ways (set_of pa) w) { b = λ k. 0; d = true }) c2

  unfoldable pub clean_hit : ℕ → Bool → Option ℕ → Cache S → Cache S
  clean_hit pa invalidate none c = c
  clean_hit pa invalidate (some w) c =
      let e = c.ways (set_of pa) w in
      let c' = if e.d then line_push lo (set_of pa) w (e.tv >>> 1) c else c in
      if invalidate then set_tv (set_of pa) w 0 c' else c'

  -- dcbst and dcbf.
  unfoldable pub dcb_clean : ℕ → Bool → Cache S → Cache S
  dcb_clean pa invalidate c =
      let (hit, c1) = line_way pa (on_below (lo.fetch_drop_at pa) c) in
      clean_hit pa invalidate hit c1

  -- dcbi: discarded, never written back.
  unfoldable pub dcb_kill : ℕ → Cache S → Cache S
  dcb_kill pa c =
      let (hit, c1) = line_way pa (on_below (lo.fetch_drop_at pa) c) in
      on_below (lo.l2_invalidate (bit_and pa (not32 31)))
        (elim hit [ none ↦ c1 | some w ↦ set_tv (set_of pa) w 0 c1 ])

  -- What a snoop does to the first level's copy: pushed to the bus when it is modified, and dead when
  -- the master writes.
  unfoldable pub snoop_way : ℕ → Bool → Option ℕ → Cache S → Cache S
  snoop_way a invalidate none c = c
  snoop_way a invalidate (some w) c =
      let e = c.ways (set_of a) w in
      let c' =
        if e.d
        then on_below (lo.l2_invalidate a)
            (set_dirty (set_of a) w false (on_below (lo.bus_write_line a e.b) c))
        else c in
      if invalidate then set_tv (set_of a) w 0 c' else c'

  unfoldable pub snoop_block : CpuState → ℕ → Bool → Cache S → Cache S
  snoop_block st a invalidate c =
      let c1 = if invalidate then on_below (lo.fetch_drop_at a) c else c in
      let c2 = if dce_on st then snoop_way a invalidate (line_way_quiet a c1) c1 else c1 in
      on_below (lo.l2_snoop a invalidate) c2

  -- The blocks from one address on, up to the last or to the end of the address space.
  unfoldable pub snoop_from : ℕ → CpuState → ℕ → ℕ → Bool → Cache S → Cache S
  snoop_from zero st a last invalidate c = c
  snoop_from (suc n) st a last invalidate c =
      let c' = snoop_block st a invalidate c in
      elim ((a == last) || ltb (u32 (a + 32)) a) [
        | true ↦ c'
        | false ↦ snoop_from n st (u32 (a + 32)) last invalidate c'
      ]

  -- snoopRead and snoopWrite; the address space has 2 ^ 27 blocks.
  unfoldable pub snoop_push : CpuState → ℕ → ℕ → Bool → Cache S → Cache S
  snoop_push st pa len invalidate c =
      let first = bit_and pa (not32 31) in
      let last = bit_and (sub32 (u32 (pa + len)) 1) (not32 31) in
      if len == 0 then c else snoop_from (2 ^ 27) st first last invalidate c

  unfoldable pub flush_way : Bool → ℕ → ℕ → Cache S → Cache S
  flush_way writeback set w c =
      let e = c.ways set w in
      let base = block_base set (e.tv >>> 1) in
      let c' =
        if has e.tv 1 && e.d
        then on_below (lo.l2_invalidate base)
            (if writeback then on_below (lo.bus_write_line base e.b) c else c)
        else c in
      set_way set w (record (c'.ways set w) { tv = 0; d = false }) c'

  unfoldable pub flush_ways : ℕ → Bool → ℕ → ℕ → Cache S → Cache S
  flush_ways zero writeback set w c = c
  flush_ways (suc n) writeback set w c =
      flush_ways n writeback set (suc w) (flush_way writeback set w c)

  unfoldable pub flush_sets : ℕ → Bool → ℕ → Cache S → Cache S
  flush_sets zero writeback set c = c
  flush_sets (suc n) writeback set c =
      flush_sets n writeback (suc set) (flush_ways 8 writeback set 0 c)

  unfoldable pub l1d_flush_all : Bool → Cache S → Cache S
  l1d_flush_all writeback c =
      on_below (lo.l2_flush_all writeback) (flush_sets 128 writeback 0 (on_below lo.fetch_drop c))
