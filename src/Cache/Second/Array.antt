-- ===== src/Cache/Second/Array.antt =====
-- The backside cache (the l2 operations of core/src/cache.cpp) with the buffer of fetched blocks and the
-- bus behind it. The bus is a parameter: the machines implement it. The count of flushes is left out.
use open_power_mac.Prelude.{
  ℕ, zero, suc, ◌+◌, ◌-◌, ◌*◌, ◌/◌, ◌%◌, Bool, true, false, Option, none, some, not, ◌||◌, ◌&&◌,
  has, ◌==◌, ◌!=◌, leb, if◌then◌else◌, update, u32, shl32, bit_and, not32, ◌>>>◌,
}
use open_power_mac.Cpu.{CpuState}
use open_power_mac.Cache.Bytes.{Line, word_at}
use open_power_mac.Cache.Lower.{Lower}

-- The bus (core/include/opm/bus.hpp): burst transactions at a base address and the accesses of a size.
pub record Bus (M : Type 0) : Type 0 where
  pub read_line32 : ℕ → M → Line × M
  pub write_line32 : ℕ → Line → M → M
  pub read : ℕ → ℕ → M → ℕ × M
  pub write : ℕ → ℕ → ℕ → M → M

pub record L2Line : Type 0 where
  pub v : Bool
  pub d : Bool
  pub tag : ℕ
  pub age : ℕ
  pub b : Line

abbrev pub empty_line : L2Line
empty_line = record { v = false; d = false; tag = 0; age = 0; b = λ k. 0 }

-- The array with two ways in each set, its size and its clock, the base of each line of the fetch
-- buffer (1 when it holds nothing), and the bus.
pub record Backside (M : Type 0) : Type 0 where
  pub l2 : ℕ → L2Line
  pub l2_sets : ℕ
  pub l2_clock : ℕ
  pub l2_inert : Bool
  pub fetch_base : ℕ → ℕ
  pub bus : M

abbrev pub l2_on : CpuState → Bool
l2_on st = has st.l2cr 0x8000_0000

-- The set of an address: by a mask when the number of sets is a power of two.
unfoldable pub l2_set_of : ℕ → ℕ → ℕ
l2_set_of sets pa =
    let mask = if (sets != 0) && (bit_and sets (sets - 1) == 0) then sets - 1 else 0 in
    if mask != 0 then bit_and (pa >>> 5) mask else (pa >>> 5) % sets

unfoldable pub fetch_slot : ℕ → ℕ
fetch_slot pa = bit_and (pa >>> 5) 4095

unfoldable pub holds_tag : ℕ → L2Line → Bool
holds_tag pa e = e.v && (e.tag == (pa >>> 5))

unfoldable pub word_of : ℕ → Option Line → Option ℕ
word_of o none = none
word_of o (some b) = some (word_at b o)

module _ {M : Type 0} where
  unfoldable pub fetch_drop : Backside M → Backside M
  fetch_drop s = record s { fetch_base = λ i. 1 }

  unfoldable pub fetch_drop_at : ℕ → Backside M → Backside M
  fetch_drop_at pa s = record s {
    fetch_base =
        if s.fetch_base (fetch_slot pa) == bit_and pa (not32 31)
        then update s.fetch_base (fetch_slot pa) 1
        else s.fetch_base;
  }

  unfoldable pub put_entry : ℕ → L2Line → Backside M → Backside M
  put_entry i e s = record s { l2 = update s.l2 i e }

  abbrev pub first_way : ℕ → Backside M → ℕ
  first_way pa s = l2_set_of s.l2_sets pa * 2

  -- The way of the set that has the block.
  unfoldable pub l2_hit : ℕ → Backside M → Option ℕ
  l2_hit pa s =
      let i = first_way pa s in
      if holds_tag pa (s.l2 i)
      then some i
      else if holds_tag pa (s.l2 (i + 1))
      then some (i + 1)
      else none

  -- `age = ++l2Clock`.
  unfoldable pub l2_age : Option ℕ → Backside M → Backside M
  l2_age none s = s
  l2_age (some i) s =
      let now = u32 (s.l2_clock + 1) in
      record (put_entry i (record (s.l2 i) { age = now }) s) { l2_clock = now }

  abbrev pub l2_usable : CpuState → Backside M → Bool
  l2_usable st s = l2_on st && (s.l2_sets != 0) && not s.l2_inert

  unfoldable pub l2_find : CpuState → ℕ → Backside M → Option ℕ × Backside M
  l2_find st pa s = if l2_usable st s then (l2_hit pa s, l2_age (l2_hit pa s) s) else (none, s)

  unfoldable pub found_line : Option ℕ → Backside M → Option Line
  found_line none s = none
  found_line (some i) s = some (s.l2 i).b

  unfoldable pub l2_read_line : CpuState → ℕ → Backside M → Option Line × Backside M
  l2_read_line st pa s = let (r, s') = l2_find st pa s in (found_line r s', s')

  unfoldable pub l2_peek32 : CpuState → ℕ → Backside M → Option ℕ × Backside M
  l2_peek32 st pa s =
      let (r, s') = l2_read_line st pa s in (word_of (bit_and (bit_and pa 31) (not32 3)) r, s')

  -- The way for a new block: an empty one, else the older.
  unfoldable pub l2_slot : ℕ → Backside M → ℕ
  l2_slot pa s =
      let i = first_way pa s in
      if not (s.l2 i).v
      then i
      else if not (s.l2 (i + 1)).v
      then i + 1
      else if leb (s.l2 i).age (s.l2 (i + 1)).age
      then i
      else i + 1

  unfoldable pub invalidate_way : ℕ → ℕ → Backside M → Backside M
  invalidate_way pa i s =
      if holds_tag pa (s.l2 i) then put_entry i (record (s.l2 i) { v = false }) s else s

  unfoldable pub l2_invalidate : ℕ → Backside M → Backside M
  l2_invalidate pa s =
      let s0 = fetch_drop_at pa s in
      let i = first_way pa s0 in
      if s0.l2_sets == 0 then s0 else invalidate_way pa (i + 1) (invalidate_way pa i s0)

  unfoldable pub l2_wipe_all : Backside M → Backside M
  l2_wipe_all s = record (fetch_drop s) { l2 = λ i. empty_line }

module _ {M : Type 0} (bus : Bus M) where
  unfoldable pub bus_write_line : ℕ → Line → Backside M → Backside M
  bus_write_line base b s =
      let s' = fetch_drop_at base s in record s' { bus = bus.write_line32 base b s'.bus }

  -- The array as far as an index, from the first line on.
  unfoldable pub flush_lines : Bool → ℕ → ℕ → Backside M → Backside M
  flush_lines writeback zero i s = s
  flush_lines writeback (suc n) i s =
      let e = s.l2 i in
      let s' = if e.v && e.d && writeback then bus_write_line (shl32 e.tag 5) e.b s else s in
      flush_lines writeback n (suc i) (put_entry i (record e { v = false; d = false }) s')

  unfoldable pub l2_flush_all : Bool → Backside M → Backside M
  l2_flush_all writeback s = flush_lines writeback (s.l2_sets * 2) 0 (fetch_drop s)

  abbrev size_bytes : ℕ → ℕ
  size_bytes k =
      if k == 0
      then 0x20_0000
      else if k == 1
      then 0x4_0000
      else if k == 2
      then 0x8_0000
      else 0x10_0000

  unfoldable pub l2_resize : CpuState → Backside M → Backside M
  l2_resize st s =
      let sets = size_bytes (bit_and (st.l2cr >>> 28) 3) / 32 / 2 in
      if sets != s.l2_sets
      then record (l2_flush_all true s) { l2_sets = sets; l2 = λ i. empty_line }
      else s

  -- The block into its way: over the copy that the cache has, else over a victim that is cast out when
  -- it is modified.
  unfoldable pub l2_put : ℕ → Line → Bool → Option ℕ → Backside M → Backside M
  l2_put pa b dirty (some i) s =
      let now = u32 (s.l2_clock + 1) in
      let e : L2Line = record {
        v = true;
        d = dirty || (s.l2 i).d;
        tag = pa >>> 5;
        age = now;
        b = b;
      } in
      record (put_entry i e s) { l2_clock = now }
  l2_put pa b dirty none s =
      let i = l2_slot pa s in
      let old = s.l2 i in
      let s' = if old.v && old.d then bus_write_line (shl32 old.tag 5) old.b s else s in
      let now = u32 (s'.l2_clock + 1) in
      record (put_entry i (record { v = true; d = dirty; tag = pa >>> 5; age = now; b = b }) s') {
        l2_clock = now;
      }

  unfoldable pub l2_install : CpuState → ℕ → Line → Bool → Backside M → Backside M
  l2_install st pa b dirty s =
      if not (l2_on st)
      then s
      else let s1 = if dirty then fetch_drop_at pa s else s in
        if s1.l2_inert
        then (if dirty then bus_write_line pa b s1 else s1)
        else let s2 = if s1.l2_sets == 0 then l2_resize st s1 else s1 in
          l2_put pa b dirty (l2_hit pa s2) s2

  -- The first part of lineFill: the second level, else a burst read that allocates there.
  unfoldable pub fill_from : CpuState → ℕ → Option Line → Backside M → Line × Backside M
  fill_from st base (some b) s = (b, s)
  fill_from st base none s =
      let (b, m) = bus.read_line32 base s.bus in
      (b, l2_install st base b false (record s { bus = m }))

  unfoldable pub reload : CpuState → ℕ → Backside M → Line × Backside M
  reload st base s = let (r, s') = l2_read_line st base s in fill_from st base r s'

  unfoldable pub castout : CpuState → ℕ → Line → Backside M → Backside M
  castout st base b s = if l2_on st then l2_install st base b true s else bus_write_line base b s

  -- With L2CR[L2TS] the block stays in the second level.
  unfoldable pub push : CpuState → ℕ → Line → Backside M → Backside M
  push st base b s =
      if l2_on st && has st.l2cr 0x4_0000
      then l2_install st base b true s
      else l2_invalidate base (bus_write_line base b s)

  unfoldable pub snoop_hit : ℕ → Bool → Option ℕ → Backside M → Backside M
  snoop_hit pa invalidate none s = s
  snoop_hit pa invalidate (some i) s =
      let e = s.l2 i in
      let s' = if e.d then put_entry i (record e { d = false }) (bus_write_line pa e.b s) else s in
      if invalidate then put_entry i (record (s'.l2 i) { v = false }) s' else s'

  unfoldable pub l2_snoop : CpuState → ℕ → Bool → Backside M → Backside M
  l2_snoop st pa invalidate s = let (r, s') = l2_find st pa s in snoop_hit pa invalidate r s'

  -- What the first level calls.
  unfoldable pub backside : CpuState → Lower (Backside M)
  backside st = record {
    reload = reload st;
    castout = castout st;
    push = push st;
    bus_write_line = bus_write_line;
    l2_invalidate = l2_invalidate;
    l2_snoop = l2_snoop st;
    l2_flush_all = l2_flush_all;
    fetch_drop = fetch_drop;
    fetch_drop_at = fetch_drop_at;
    bus_read = λ pa len s. let (v, m) = bus.read pa len s.bus in (v, record s { bus = m });
    bus_write = λ pa len v s. record s { bus = bus.write pa len v s.bus };
  }
