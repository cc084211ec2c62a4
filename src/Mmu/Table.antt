-- ===== src/Mmu/Table.antt =====
-- The search of the hashed page table (core/src/mmu.cpp, step 4 of Cpu::translate).
use open_power_mac.Prelude.{
  ℕ, ◌*◌, Bool, true, false, Option, none, some, List, [], ◌∷◌, ◌++◌, map, bit_and, bit_or, bit_xor,
  if◌then◌else◌, ◌==◌, has, not32, shl32, add32, ◌>>>◌, ◌&&◌, u32,
}
use open_power_mac.Mmu.Memory.{Memory, Machine}

-- The hash of a page, on the first and on the second pass.
unfoldable pub pteg_hash : ℕ → ℕ → Bool → ℕ
pteg_hash vsid page_index second =
    let h = bit_xor (bit_and vsid 0x7_ffff) page_index in
    if second then bit_and (not32 h) 0x7_ffff else h

unfoldable pub pteg_addr : ℕ → ℕ → ℕ
pteg_addr sdr1 hash =
    let htaborg = bit_and sdr1 0xffff_0000 in
    let htabmask = bit_and sdr1 0x1ff in
    bit_or (bit_or htaborg (shl32 (bit_and (bit_and (hash >>> 10) 0x1ff) htabmask) 16))
      (shl32 (bit_and hash 0x3ff) 6)

-- A page table entry that the search looks at: its pass and its address.
pub record Slot : Type 0 where
  pub second : Bool
  pub addr : ℕ

abbrev pub pass_slots : ℕ → ℕ → ℕ → Bool → List Slot
pass_slots sdr1 vsid page_index second =
    let base = pteg_addr sdr1 (pteg_hash vsid page_index second) in
    map (λ (k : ℕ). record { second = second; addr = add32 base (k * 8) })
      (0 ∷ 1 ∷ 2 ∷ 3 ∷ 4 ∷ 5 ∷ 6 ∷ 7 ∷ [])

-- The sixteen slots, in the order of the two loops.
unfoldable pub slots : ℕ → ℕ → ℕ → List Slot
slots sdr1 vsid page_index =
    pass_slots sdr1 vsid page_index false ++ pass_slots sdr1 vsid page_index true

-- The first word of an entry is valid and names this page, in this pass.
unfoldable pub pte_matches : ℕ → ℕ → Bool → ℕ → Bool
pte_matches vsid page_index second w0 =
    has w0 0x8000_0000
    && bit_and (w0 >>> 7) 0xff_ffff == vsid
    && bit_and (w0 >>> 6) 1 == (if second then 1 else 0)
    && bit_and w0 0x3f == page_index >>> 10

module _ {M : Type 0} (mm : Memory M) where
  -- A word of the table: through the data cache, or straight from the bus for a probe.
  unfoldable pub table_read : ℕ → Machine M → ℕ × Machine M
  table_read a m =
      if m.cpu.mmu_probe
      then (let (v, mem) = mm.bus_read32 a m.mem in (v, record m { mem = mem }))
      else (let (v, mem) = mm.mem_read m.cpu.st a 4 2 m.mem in (u32 v, record m { mem = mem }))

  -- The address of the first entry that matches.
  unfoldable pub table_search : ℕ → ℕ → List Slot → Machine M → Option ℕ × Machine M
  table_search vsid page_index [] m = (none, m)
  table_search vsid page_index (s ∷ ss) m =
      let (w0, m') = table_read s.addr m in
      let rest = table_search vsid page_index ss m' in
      if pte_matches vsid page_index s.second w0 then (some s.addr, m') else rest
