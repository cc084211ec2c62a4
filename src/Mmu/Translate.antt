-- ===== src/Mmu/Translate.antt =====
-- Cpu::translate of core/src/mmu.cpp. The result is the physical address and the WIMG bits, or `none`
-- where an exception was raised; the machine is returned in either case.
use open_power_mac.Prelude.{
  ℕ, ◌+◌, Bool, true, false, not, Option, none, some, bit_and, bit_or, bit_xor, if◌then◌else◌, ◌==◌,
  ◌!=◌, has, sub32, leb, ◌>>>◌, ◌&&◌, ◌||◌, update,
}
use open_power_mac.Cpu.{Cpu, CpuState, TlbEntry, raise_exc, user_mode, dsi, isi}
use open_power_mac.Cpu.Msr
use open_power_mac.Mmu.Memory.{Memory, Machine}
use open_power_mac.Mmu.Bat.{BatHit, bat_lookup, pp_allows}
use open_power_mac.Mmu.Table.{slots, table_read, table_search}

-- An access: its address, and whether it is a store or a fetch.
pub record Access : Type 0 where
  pub ea : ℕ
  pub write : Bool
  pub fetch : Bool

abbrev pub cia : Access → Cpu → ℕ
cia x c = if x.fetch then x.ea else sub32 c.st.pc 4

-- The data storage interrupt of an access.
unfoldable pub data_fault : Access → ℕ → Cpu → Cpu
data_fault x bits c = raise_exc dsi (cia x c) 0 (record c {
  st = record (c.st) { dar = x.ea; dsisr = bit_or bits (if x.write then 0x0200_0000 else 0) };
})

-- A fault: an instruction storage interrupt for a fetch, a data storage interrupt for data.
unfoldable pub fault : Access → ℕ → ℕ → Cpu → Cpu
fault x isi_bits dsi_bits c =
    if x.fetch then raise_exc isi (cia x c) isi_bits c else data_fault x dsi_bits c

abbrev pub page_index : ℕ → ℕ
page_index ea = bit_and (ea >>> 12) 0xffff

abbrev pub tlb : Access → Cpu → ℕ → ℕ → TlbEntry
tlb x c = if x.fetch then c.itlb else c.dtlb

abbrev pub lru : Access → Cpu → ℕ → ℕ
lru x c = if x.fetch then c.itlb_lru else c.dtlb_lru

unfoldable pub set_entry : Access → ℕ → ℕ → TlbEntry → Cpu → Cpu
set_entry x set way e c =
    if x.fetch
    then record c { itlb = update c.itlb set (update (c.itlb set) way e) }
    else record c { dtlb = update c.dtlb set (update (c.dtlb set) way e) }

unfoldable pub set_lru : Access → ℕ → ℕ → Cpu → Cpu
set_lru x set way c =
    if x.fetch
    then record c { itlb_lru = update c.itlb_lru set way }
    else record c { dtlb_lru = update c.dtlb_lru set way }

-- What an entry does for an access: it holds another page, it forbids the fetch (guarded) or the access,
-- it must be reloaded so that the table gets its C bit, or it answers.
pub data Way : Type 0 where
  other guarded denied needs_change serves : Way

unfoldable pub entry_way : Access → ℕ → Bool → TlbEntry → Way
entry_way x vsid key e =
    if not e.v || e.vsid != vsid || e.pi != page_index x.ea
    then other
    else if x.fetch && has e.wimg 1
    then guarded
    else if not (pp_allows e.pp key x.write)
    then denied
    else if x.write && not e.c
    then needs_change
    else serves

-- The answer of the lookaside buffer, if it has one.
pub data Tlb : Type 0 where
  answered : Option (ℕ × ℕ) → Cpu → Tlb
  missed : Cpu → Tlb

-- What the loop does at an entry: `next` is what follows.
unfoldable pub at_way : Access → ℕ → ℕ → TlbEntry → Tlb → Cpu → Way → Tlb
at_way x set way e next c other = next
at_way x set way e next c guarded = answered none (fault x 0x1000_0000 0 c)
at_way x set way e next c denied = answered none (fault x 0x0800_0000 0x0800_0000 c)
at_way x set way e next c needs_change = missed (set_entry x set way (record e { v = false }) c)
at_way x set way e next c serves =
    answered (some (bit_or e.rpn (bit_and x.ea 0xfff), e.wimg)) (set_lru x set (bit_xor way 1) c)

unfoldable pub try_way : Access → ℕ → Bool → ℕ → Tlb → Cpu → Tlb
try_way x vsid key way next c =
    let set = bit_and (page_index x.ea) 63 in
    let e = tlb x c set way in at_way x set way e next c (entry_way x vsid key e)

unfoldable pub tlb_lookup : Access → ℕ → Bool → Cpu → Tlb
tlb_lookup x vsid key c = try_way x vsid key 0 (try_way x vsid key 1 (missed c) c) c

module _ {M : Type 0} (mm : Memory M) where
  -- `memWrite(pteAddr + 4, 4, nw1, 2u)`, where the word changed and this is no probe.
  unfoldable pub write_back : ℕ → ℕ → ℕ → Machine M → Machine M
  write_back addr w1 nw1 m =
      if nw1 != w1 && not m.cpu.mmu_probe
      then record m { mem = mm.mem_write m.cpu.st (addr + 4) 4 nw1 2 m.mem }
      else m

  -- The reload of the lookaside buffer, into the way that was used least recently.
  unfoldable pub reload : Access → ℕ → ℕ → ℕ → Cpu → Cpu
  reload x vsid w1 nw1 c =
      let set = bit_and (page_index x.ea) 63 in
      let way = lru x c set in
      if c.mmu_probe
      then c
      else set_lru x set (bit_xor way 1) (
          set_entry x set way
            (record {
              v = true;
              c = has nw1 0x80;
              vsid = vsid;
              pi = page_index x.ea;
              rpn = bit_and w1 0xffff_f000;
              wimg = bit_and (w1 >>> 3) 0xf;
              pp = bit_and w1 3;
            })
            c)

  -- The matching entry at `addr`: protection, the R and C bits, and the reload.
  unfoldable pub use_pte : Access → ℕ → Bool → ℕ → Machine M → Option (ℕ × ℕ) × Machine M
  use_pte x vsid key addr m =
      let (w1, m') = table_read mm (addr + 4) m in
      let nw1 = bit_or w1 0x100 in
      if x.fetch && has w1 8
      then (none, record m' { cpu = fault x 0x1000_0000 0 m'.cpu })
      else if not (pp_allows (bit_and w1 3) key x.write)
      then (let m'' = write_back addr w1 nw1 m' in
          (none, record m'' { cpu = fault x 0x0800_0000 0x0800_0000 m''.cpu }))
      else (let nw1' = if x.write then bit_or nw1 0x80 else nw1 in
          let m'' = write_back addr w1 nw1' m' in
          (
            some (bit_or (bit_and w1 0xffff_f000) (bit_and x.ea 0xfff), bit_and (w1 >>> 3) 0xf),
            record m'' { cpu = reload x vsid w1 nw1' m''.cpu },
          ))

  unfoldable pub walk : Access → ℕ → Bool → Machine M → Option (ℕ × ℕ) × Machine M
  walk x vsid key m =
      let (found, m') =
        table_search mm vsid (page_index x.ea) (slots m.cpu.st.sdr1 vsid (page_index x.ea)) m in
      elim found [
        | none ↦ (none, record m' { cpu = fault x 0x4000_0000 0x4000_0000 m'.cpu })
        | some addr ↦ use_pte x vsid key addr m'
      ]

  unfoldable pub after_lookup : Access → ℕ → Bool → Machine M → Tlb → Option (ℕ × ℕ) × Machine M
  after_lookup x vsid key m (answered r c) = (r, record m { cpu = c })
  after_lookup x vsid key m (missed c) = walk x vsid key (record m { cpu = c })

  -- Steps 3 and 4: the lookaside buffer, then the table.
  unfoldable pub page_translate : Access → ℕ → Bool → Machine M → Option (ℕ × ℕ) × Machine M
  page_translate x vsid key m =
      if m.cpu.mmu_probe
      then walk x vsid key m
      else after_lookup x vsid key m (tlb_lookup x vsid key m.cpu)

  -- Step 2: the segment register.
  unfoldable pub segment_translate : Access → Machine M → Option (ℕ × ℕ) × Machine M
  segment_translate x m =
      let sr = m.cpu.st.sr (x.ea >>> 28) in
      if has sr 0x8000_0000
      then (none, record m { cpu = fault x 0x1000_0000 0x0400_0000 m.cpu })
      else if x.fetch && has sr 0x1000_0000
      then (none, record m { cpu = fault x 0x1000_0000 0 m.cpu })
      else page_translate x (bit_and sr 0xff_ffff)
          (if user_mode m.cpu.st then has sr 0x2000_0000 else has sr 0x4000_0000) m

  -- Step 1: a block that matches.
  unfoldable pub bat_translate : Access → BatHit → Machine M → Option (ℕ × ℕ) × Machine M
  bat_translate x b m =
      if x.fetch && has b.wimg 1
      then (none, record m { cpu = fault x 0x1000_0000 0 m.cpu })
      else if b.pp == 0 || (x.write && has b.pp 1)
      then (none, record m { cpu = fault x 0x0800_0000 0x0800_0000 m.cpu })
      else (some (b.pa, b.wimg), m)

  unfoldable pub after_blocks : Access → Machine M → Option BatHit → Option (ℕ × ℕ) × Machine M
  after_blocks x m (some b) = bat_translate x b m
  after_blocks x m none = segment_translate x m

  abbrev pub blocks : Access → CpuState → Option BatHit
  blocks x s =
      if x.fetch
      then bat_lookup s.ibatu s.ibatl x.ea (user_mode s)
      else bat_lookup s.dbatu s.dbatl x.ea (user_mode s)

  abbrev pub real_wimg : ℕ → Cpu → ℕ
  real_wimg ea c =
      if c.real_mode_inhibit_base != 0 && leb c.real_mode_inhibit_base ea then bit_or 3 4 else 3

  unfoldable pub translate : Access → Machine M → Option (ℕ × ℕ) × Machine M
  translate x m =
      if not (has m.cpu.st.msr (if x.fetch then Msr.ir else Msr.dr))
      then (some (x.ea, real_wimg x.ea m.cpu), m)
      else after_blocks x m (blocks x m.cpu.st)
