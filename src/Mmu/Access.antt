-- ===== src/Mmu/Access.antt =====
-- The lookaside buffers' maintenance and the accessors of virtual memory (core/src/mmu.cpp). The value
-- of a read that faults is `none`: the part that was read before the fault is left out.
use open_power_mac.Prelude.{
  ℕ, zero, suc, ◌+◌, ◌-◌, ◌*◌, ◌^◌, Bool, true, false, not, Option, none, some, bit_and, bit_or,
  bit_xor, if◌then◌else◌, ◌==◌, ◌!=◌, has, same, sub32, add32, not32, u32, u64, ltb, ◌>>>◌, ◌&&◌,
  ◌||◌, update,
}
use open_power_mac.Bits.{align_dsisr}
use open_power_mac.Cpu.{Cpu, CpuState, TlbEntry, raise_exc, dsi, alignment}
use open_power_mac.Cpu.Msr
use open_power_mac.Mmu.Memory.{Memory, Machine}
use open_power_mac.Mmu.Translate.{Access, translate}

abbrev pub drop_class : ℕ → (ℕ → ℕ → TlbEntry) → ℕ → ℕ → TlbEntry
drop_class set t s w = if s == set && ltb w 2 then record (t s w) { v = false } else t s w

unfoldable pub tlb_invalidate_class : ℕ → Cpu → Cpu
tlb_invalidate_class ea c =
    let set = bit_and (ea >>> 12) 63 in
    record c {
      mmu_gen = u64 (c.mmu_gen + 1);
      batch_break = true;
      itlb = drop_class set c.itlb;
      dtlb = drop_class set c.dtlb;
    }

abbrev pub empty_entry : TlbEntry
empty_entry = record { v = false; c = false; vsid = 0; pi = 0; rpn = 0; wimg = 0; pp = 0 }

abbrev pub flushed : (ℕ → ℕ → TlbEntry) → ℕ → ℕ → TlbEntry
flushed t s w = if ltb s 64 && ltb w 2 then empty_entry else t s w

abbrev pub flushed_lru : (ℕ → ℕ) → ℕ → ℕ
flushed_lru t s = if ltb s 64 then 0 else t s

unfoldable pub tlb_flush_all : Cpu → Cpu
tlb_flush_all c = record c {
  mmu_gen = u64 (c.mmu_gen + 1);
  batch_break = true;
  itlb = flushed c.itlb;
  dtlb = flushed c.dtlb;
  itlb_lru = flushed_lru c.itlb_lru;
  dtlb_lru = flushed_lru c.dtlb_lru;
}

unfoldable pub dabr_hit : CpuState → ℕ → Bool → Bool
dabr_hit s ea write =
    has s.dabr (if write then 2 else 1)
    && same (bit_and (s.dabr >>> 2) 1 != 0) (has s.msr Msr.dr)
    && bit_and (bit_and (bit_xor ea s.dabr >>> 3) (s.bamr >>> 3)) 0x1fff_ffff == 0

-- `true` with the processor as it was, or `false` with the alignment exception.
unfoldable pub le_align_check : ℕ → ℕ → Cpu → Bool × Cpu
le_align_check ea len c =
    if not (has c.st.msr Msr.le) || bit_and ea (len - 1) == 0 then (true, c) else (
      false,
      raise_exc alignment (sub32 c.st.pc 4) 0
          (record c { st = record (c.st) { dar = ea; dsisr = align_dsisr c.cur_insn } }),
    )

unfoldable pub watch_fault : ℕ → ℕ → Cpu → Cpu
watch_fault ea bits c =
    raise_exc dsi (sub32 c.st.pc 4) 0 (record c { st = record (c.st) { dar = ea; dsisr = bits } })

abbrev pub data_access : ℕ → Bool → Access
data_access ea write = record { ea = ea; write = write; fetch = false }

-- The address of a small access in little-endian mode.
unfoldable pub munge : ℕ → ℕ → ℕ
munge ea len = bit_xor ea (if len == 1 then 7 else if len == 2 then 6 else 4)

abbrev pub one_page : ℕ → ℕ → Bool
one_page ea len = bit_and (bit_xor ea (u32 (ea + len - 1))) (not32 0xfff) == 0

abbrev pub direction : Bool → ℕ
direction write = if write then 1 else 0

abbrev pub data_key : CpuState → ℕ
data_key s = bit_and s.msr (bit_or Msr.dr (bit_or Msr.pr Msr.le))

-- The remembered translation serves this access.
unfoldable pub dxl_valid : ℕ → Bool → Cpu → Bool
dxl_valid ea write c =
    let d = direction write in
    c.dxl_gen d == c.mmu_gen
    && c.dxl_page d == ea >>> 12
    && c.dxl_msr d == data_key c.st
    && c.dxl_sr d == c.st.sr (ea >>> 28)

unfoldable pub remember : ℕ → Bool → ℕ → ℕ → CpuState → Cpu → Cpu
remember ea write pa wimg before c =
    let d = direction write in
    record c {
      dxl_gen = update c.dxl_gen d c.mmu_gen;
      dxl_page = update c.dxl_page d (ea >>> 12);
      dxl_msr = update c.dxl_msr d (data_key before);
      dxl_sr = update c.dxl_sr d (before.sr (ea >>> 28));
      dxl_pa = update c.dxl_pa d (bit_and pa (not32 0xfff));
      dxl_wimg = update c.dxl_wimg d wimg;
    }

module _ {M : Type 0} (mm : Memory M) where
  unfoldable pub xlate_data : ℕ → Bool → Machine M → Option (ℕ × ℕ) × Machine M
  xlate_data ea write m =
      if m.cpu.dxl_cache_off
      then translate mm (data_access ea write) m
      else if dxl_valid ea write m.cpu
      then (
        some (
          bit_or (m.cpu.dxl_pa (direction write)) (bit_and ea 0xfff),
          m.cpu.dxl_wimg (direction write),
        ),
        m,
      )
      else (let (r, m') = translate mm (data_access ea write) m in
          elim r [
            | none ↦ (none, m')
            | some p ↦ (some p, record m' { cpu = remember ea write p.0 p.1 m.cpu.st m'.cpu })
          ])

  abbrev pub load : ℕ → ℕ → ℕ → Machine M → ℕ × Machine M
  load pa len wimg m =
      let (v, mem) = mm.mem_read m.cpu.st pa len wimg m.mem in (v, record m { mem = mem })

  abbrev pub store : ℕ → ℕ → ℕ → ℕ → Machine M → Machine M
  store pa len v wimg m = record m { mem = mm.mem_write m.cpu.st pa len v wimg m.mem }

  -- One translated read, and one translated write.
  unfoldable pub read_at : ℕ → ℕ → Machine M → Option ℕ × Machine M
  read_at ea len m =
      let (r, m') = translate mm (data_access ea false) m in
      elim r [ none ↦ (none, m') | some p ↦ let (v, m'') = load p.0 len p.1 m' in (some v, m'') ]

  unfoldable pub write_at : ℕ → ℕ → ℕ → Machine M → Bool × Machine M
  write_at ea len v m =
      let (r, m') = translate mm (data_access ea true) m in
      elim r [ none ↦ (false, m') | some p ↦ (true, store p.0 len v p.1 m') ]

  -- The bytes from `ea` on, into a value that the earlier bytes have begun.
  unfoldable pub read_bytes : ℕ → ℕ → ℕ → Machine M → Option ℕ × Machine M
  read_bytes zero ea out m = (some out, m)
  read_bytes (suc n) ea out m =
      let (r, m') = read_at ea 1 m in
      elim r [
        | none ↦ (none, m')
        | some b ↦ read_bytes n (add32 ea 1) (bit_or (u64 (out * 2 ^ 8)) b) m'
      ]

  -- The `n` low bytes of the value, the highest first.
  unfoldable pub write_bytes : ℕ → ℕ → ℕ → Machine M → Bool × Machine M
  write_bytes zero ea v m = (true, m)
  write_bytes (suc n) ea v m =
      let (done, m') = write_at ea 1 (bit_and (v >>> (8 * n)) 0xff) m in
      let rest = write_bytes n (add32 ea 1) v m' in if done then rest else (false, m')

  unfoldable pub read_two_words : ℕ → Machine M → Option ℕ × Machine M
  read_two_words ea m =
      let (hi, m') = read_at (bit_xor ea 4) 4 m in
      elim hi [
        | none ↦ (none, m')
        | some h ↦
            let (lo, m'') = read_at (bit_xor (add32 ea 4) 4) 4 m' in
            elim lo [ none ↦ (none, m'') | some l ↦ (some (bit_or (u64 (h * 2 ^ 32)) l), m'') ]
      ]

  unfoldable pub write_two_words : ℕ → ℕ → Machine M → Bool × Machine M
  write_two_words ea v m =
      let (done, m') = write_at (bit_xor ea 4) 4 (u32 (v >>> 32)) m in
      if done then write_at (bit_xor (add32 ea 4) 4) 4 (u32 v) m' else (false, m')

  -- An access whose checks are passed, with the address as it is sent out.
  unfoldable pub read_checked : ℕ → ℕ → Machine M → Option ℕ × Machine M
  read_checked ea len m =
      if one_page ea len
      then (let (r, m') = xlate_data ea false m in
          elim r [
            | none ↦ (none, m')
            | some p ↦ let (v, m'') = load p.0 len p.1 m' in (some v, m'')
          ])
      else read_bytes len ea 0 m

  unfoldable pub write_checked : ℕ → ℕ → ℕ → Machine M → Bool × Machine M
  write_checked ea len v m =
      if one_page ea len
      then (let (r, m') = xlate_data ea true m in
          elim r [ none ↦ (false, m') | some p ↦ (true, store p.0 len v p.1 m') ])
      else write_bytes len ea v m

  unfoldable pub read_v : ℕ → ℕ → Machine M → Option ℕ × Machine M
  read_v ea len m =
      let (aligned, c) = le_align_check ea len m.cpu in
      let little = has m.cpu.st.msr Msr.le in
      if not aligned
      then (none, record m { cpu = c })
      else if dabr_hit m.cpu.st ea false
      then (none, record m { cpu = watch_fault ea 0x0040_0000 m.cpu })
      else if little && len == 8
      then read_two_words ea m
      else read_checked (if little then munge ea len else ea) len m

  unfoldable pub write_v : ℕ → ℕ → ℕ → Machine M → Bool × Machine M
  write_v ea len v m =
      let (aligned, c) = le_align_check ea len m.cpu in
      let little = has m.cpu.st.msr Msr.le in
      if not aligned
      then (false, record m { cpu = c })
      else if dabr_hit m.cpu.st ea true
      then (false, record m { cpu = watch_fault ea (bit_or 0x0040_0000 0x0200_0000) m.cpu })
      else if little && len == 8
      then write_two_words ea v m
      else write_checked (if little then munge ea len else ea) len v m
