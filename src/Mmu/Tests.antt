-- ===== src/Mmu/Tests.antt =====
-- Translations on a concrete machine, whose memory is a table of words by address.
use open_power_mac.Prelude.{
  ℕ, ◌+◌, ◌*◌, ◌/◌, ◌%◌, ◌^◌, ◌≡◌, ◌≢◌, refl, inl, true, false, some, arith, update, if◌then◌else◌,
  ◌==◌,
}
use open_power_mac.Cpu.{user_mode}
use open_power_mac.Cpu.Samples.{sample, sample_state}
use open_power_mac.Mmu.Memory.{Memory, Machine}
use open_power_mac.Mmu.Bat.{bat_hit, bat_matches, bat_scan, bat_lookup, pp_allows}
use open_power_mac.Mmu.Table.{pteg_hash, pteg_addr, slots, pte_matches, table_read, table_search}
use open_power_mac.Mmu.Translate.{
  Access, set_entry, set_lru, entry_way, at_way, try_way, tlb_lookup, write_back, reload, use_pte,
  walk, after_lookup, page_translate, segment_translate, after_blocks, translate,
}
use open_power_mac.Mmu.Access.{tlb_invalidate_class, data_access, xlate_data}
use open_power_mac.Mmu.FaultLaws.{Outcome, translate-Outcome}
use open_power_mac.Mmu.BlockLaws.{bat_hit-pa}
use open_power_mac.Mmu.BufferLaws.{class_of, Same, tlb_invalidate_class-walk}

abbrev words : Memory (ℕ → ℕ)
words = record {
  mem_read = λ s pa len wimg m. (m pa, m);
  mem_write = λ s pa len v wimg m. update m pa v;
  bus_read32 = λ a m. (m a, m);
}

-- Data translation on, the page table at 0x100000, and a segment with identifier 1.
abbrev paged : Machine (ℕ → ℕ)
paged = record {
  cpu = record sample { st = record sample_state { msr = 0x30; sdr1 = 0x10_0000; sr = λ _. 1 } };
  mem = λ a. if a == 0x10_0100 then 0x8000_0080 else if a == 0x10_0104 then 0x0765_4002 else 0;
}

-- A load from page 5 of segment 0, and a fetch from page 9.
abbrev a_load : Access
a_load = record { ea = 0x5123; write = false; fetch = false }

abbrev a_fetch : Access
a_fetch = record { ea = 0x9000; write = false; fetch = true }

translated : (translate words a_load paged).0 ≡ some (0x0765_4123, 0)
unfolding translate after_blocks bat_lookup bat_scan bat_matches segment_translate page_translate
    tlb_lookup try_way entry_way at_way after_lookup walk slots pteg_addr pteg_hash table_search
    table_read pte_matches use_pte pp_allows write_back reload set_entry set_lru user_mode
translated = refl

translate-Outcome_example : Outcome (ℕ → ℕ) a_fetch paged.cpu.st (translate words a_fetch paged)
translate-Outcome_example = translate-Outcome (ℕ → ℕ) words a_fetch paged

-- A block of 256 KB at 0x80040000, mapped to 0x10080000.
bat_hit-pa_example :
    (bat_hit 0x8004_0007 0x1008_0002 0x8006_5678).pa
    ≡ 0x1008_0002 / 2 ^ (17 + 1) * 2 ^ (17 + 1) + 0x8006_5678 % 2 ^ (17 + 1)
bat_hit-pa_example =
    bat_hit-pa 0x8004_0007 0x1008_0002 0x8006_5678 1 (omega arith) (omega arith) (omega arith)
      (omega arith) refl

tlb_invalidate_class-walk_example :
    Same
      (translate words
        (data_access 0x5123 false)
        (record paged { cpu = tlb_invalidate_class 0x5000 paged.cpu }))
      (xlate_data words 0x5123 false (record paged { cpu = tlb_invalidate_class 0x5000 paged.cpu }))
    × (page_translate words a_load 1 false
          (record paged { cpu = tlb_invalidate_class 0x5000 paged.cpu })
        ≡ walk words a_load 1 false (record paged { cpu = tlb_invalidate_class 0x5000 paged.cpu }))
    × ((set : ℕ)
        → set ≢ class_of 0x5000
        → ((tlb_invalidate_class 0x5000 paged.cpu).itlb set ≡ paged.cpu.itlb set)
          × ((tlb_invalidate_class 0x5000 paged.cpu).dtlb set ≡ paged.cpu.dtlb set))
tlb_invalidate_class-walk_example =
    tlb_invalidate_class-walk words a_load 0x5000 1 false paged refl (inl (omega arith))
      (omega arith)
