-- ===== src/Pci/Banks.antt =====
-- What the bus reads from the configuration: the memory banks of the host bridge and the apertures of
-- the display (machine/src/pci.cpp).
use open_power_mac.Prelude.{
  ℕ, ◌+◌, Bool, false, Option, none, some, bit_and, bit_or, if◌then◌else◌, ◌!=◌, ltb, has, shl32,
  ◌>>>◌,
}
use open_power_mac.Pci.Config.{PciConfig}

pub record RamBank : Type 0 where
  pub lo : ℕ
  pub hi : ℕ
  pub en : Bool

unfoldable pub bank : (ℕ → ℕ) → ℕ → RamBank
bank c n =
    let low_bank = bit_and n 3 in
    let base = if ltb n 4 then 0x80 else 0x84 in
    let ext_base = if ltb n 4 then 0x88 else 0x8c in
    let end_base = if ltb n 4 then 0x90 else 0x94 in
    let ext_end_base = if ltb n 4 then 0x98 else 0x9c in
    let start = c (base + low_bank) in
    let ext = bit_and (c (ext_base + low_bank)) 3 in
    let end = c (end_base + low_bank) in
    let ext_end = bit_and (c (ext_end_base + low_bank)) 3 in
    record {
      lo = bit_or (shl32 ext 28) (shl32 start 20);
      hi = bit_or (bit_or (shl32 ext_end 28) (shl32 end 20)) 0xf_ffff;
      en = bit_and (c 0xa0 >>> n) 1 != 0;
    }

-- Bank n < 8, `none` where there is no host bridge (the caller's array is left alone).
unfoldable pub ram_bank : ℕ → PciConfig → Option RamBank
ram_bank n p = elim (p.devs 0) [ none ↦ none | some d ↦ some (bank d.cfg n) ]

-- Four configuration bytes, the lowest first.
unfoldable pub le32 : (ℕ → ℕ) → ℕ → ℕ
le32 c r =
    bit_or (bit_or (bit_or (c r) (shl32 (c (r + 1)) 8)) (shl32 (c (r + 2)) 16))
      (shl32 (c (r + 3)) 24)

unfoldable pub mem_go : PciConfig → Bool
mem_go p = elim (p.devs 0) [ none ↦ false | some d ↦ has (le32 d.cfg 0xf0) 0x8_0000 ]

unfoldable pub ati_base : PciConfig → ℕ
ati_base p = elim (p.devs 0x12) [ none ↦ 0 | some d ↦ bit_and (le32 d.cfg 0x10) 0xff80_0000 ]

unfoldable pub ati_io_base : PciConfig → ℕ
ati_io_base p = elim (p.devs 0x12) [ none ↦ 0 | some d ↦ bit_and (le32 d.cfg 0x14) 0xffff_ff00 ]
