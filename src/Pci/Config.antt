-- ===== src/Pci/Config.antt =====
-- The devices, and the accesses to their configuration bytes (machine/src/pci.cpp). The map of devices
-- is a function to `Option`, and the log of probes one to counts that start at 0.
use open_power_mac.Prelude.{
  ℕ, ◌+◌, ◌-◌, ◌*◌, ◌/◌, ◌^◌, Bool, not, Option, none, some, bit_and, bit_or, if◌then◌else◌, ◌==◌,
  ◌!=◌, leb, ltb, has, ◌>>>◌, u8, u32, u64, update, ◌&&◌,
}

pub record Dev : Type 0 where
  pub cfg : ℕ → ℕ
  pub bar_mask : ℕ → ℕ

pub record Probe : Type 0 where
  pub reads : ℕ
  pub writes : ℕ

pub record PciConfig : Type 0 where
  pub devs : ℕ → Option Dev
  pub addr : ℕ
  -- Counts the writes to the registers of the memory interface.
  pub mem_gen : ℕ
  pub probe_log : ℕ → Probe

abbrev pub put8 : ℕ → ℕ → Dev → Dev
put8 off v d = record d { cfg = update d.cfg off v }

abbrev pub put16 : ℕ → ℕ → Dev → Dev
put16 off v d = put8 (off + 1) (u8 (v >>> 8)) (put8 off (u8 v) d)

abbrev pub put32 : ℕ → ℕ → Dev → Dev
put32 off v d = put16 (off + 2) (v >>> 16) (put16 off v d)

abbrev blank : Dev
blank = record { cfg = λ _. 0; bar_mask = λ _. 0 }

abbrev pub mask_bar : ℕ → ℕ → Dev → Dev
mask_bar n m d = record d { bar_mask = update d.bar_mask n m }

-- The MPC106 "Grackle" host bridge.
abbrev pub grackle : Dev
grackle = put16 0x0a 0x0600 (
    put8 0x08 0x40
      (put16 0x06 0x0080 (put16 0x04 0x0006 (put16 0x02 0x0002 (put16 0x00 0x1057 blank)))))

-- The "Heathrow" mac-io.
abbrev pub heathrow : Dev
heathrow = put8 0x3d 0x01 (
    mask_bar 0 0xfff8_0000 (
      put32 0x10 0xf300_0000 (
        put16 0x0a 0xff00
          (put8 0x08 0x01 (put16 0x04 0x0006 (put16 0x02 0x0010 (put16 0x00 0x106b blank)))))))

-- The ATI 3D Rage Pro.
abbrev pub ati : Dev
ati = put8 0x3d 0x01 (
    put16 0x2e 0x4750 (
      put16 0x2c 0x1002 (
        mask_bar 2 0xffff_f000 (
          put8 0x14 0x01 (
            mask_bar 1 0xffff_ff01 (
              mask_bar 0 0xff80_0000 (
                put16 0x0a 0x0300 (
                  put8 0x08 0x5c (
                    put16 0x06 0x0280
                      (put16 0x04 0x0006 (put16 0x02 0x4750 (put16 0x00 0x1002 blank))))))))))))

abbrev pub initial_devs : ℕ → Option Dev
initial_devs n =
    if n == 0
    then some grackle
    else if n == 0x10
    then some heathrow
    else if n == 0x12
    then some ati
    else none

abbrev pub initial : PciConfig
initial = record {
  devs = initial_devs;
  addr = 0;
  mem_gen = 0;
  probe_log = λ _. record { reads = 0; writes = 0 };
}

abbrev pub set_addr : ℕ → PciConfig → PciConfig
set_addr le p = record p { addr = le }

abbrev pub bus_of : ℕ → ℕ
bus_of addr = bit_and (addr >>> 16) 0xff

abbrev pub dev_of : ℕ → ℕ
dev_of addr = bit_and (addr >>> 11) 0x1f

abbrev pub reg_of : ℕ → ℕ → ℕ
reg_of addr lane = bit_or (bit_and addr 0xfc) lane

abbrev pub probe_key : ℕ → ℕ
probe_key addr = bit_or (dev_of addr * 2 ^ 8) (bit_and addr 0xfc)

abbrev pub note_read : PciConfig → PciConfig
note_read p =
    let k = probe_key p.addr in
    let n = p.probe_log k in
    record p { probe_log = update p.probe_log k (record n { reads = u64 (n.reads + 1) }) }

abbrev pub note_write : PciConfig → PciConfig
note_write p =
    let k = probe_key p.addr in
    let n = p.probe_log k in
    record p { probe_log = update p.probe_log k (record n { writes = u64 (n.writes + 1) }) }

-- The byte of a device, 0xff where there is none.
abbrev pub cfg_byte : Option Dev → ℕ → ℕ
cfg_byte none reg = 0xff
cfg_byte (some d) reg = d.cfg reg

unfoldable pub read_data : ℕ → PciConfig → ℕ × PciConfig
read_data lane p =
    if not (has p.addr 0x8000_0000)
    then (0xff, p)
    else if bus_of p.addr != 0
    then (0xff, note_read p)
    else (cfg_byte (p.devs (dev_of p.addr)) (reg_of p.addr lane), note_read p)

-- A byte written to a base address register: only the bits of the mask take the new value.
unfoldable pub bar_byte : ℕ → ℕ → ℕ → ℕ
bar_byte mask_byte old v = bit_or (bit_and v mask_byte) (bit_and old (255 - mask_byte))

abbrev pub in_bars : ℕ → Bool
in_bars reg = leb 0x10 reg && ltb reg 0x28

abbrev pub bar_mask_of : Dev → ℕ → ℕ
bar_mask_of d reg = d.bar_mask ((reg - 0x10) / 4)

abbrev pub mask_byte_of : Dev → ℕ → ℕ
mask_byte_of d reg = u8 (bar_mask_of d reg >>> (8 * bit_and reg 3))

-- What a write leaves of the device.
unfoldable pub dev_write : ℕ → ℕ → Dev → Dev
dev_write reg v d =
    if in_bars reg
    then (if bar_mask_of d reg == 0
        then d
        else put8 reg (bar_byte (mask_byte_of d reg) (d.cfg reg) v) d)
    else if ltb reg 8
    then d
    else put8 reg v d

unfoldable pub write_dev : ℕ → ℕ → ℕ → Dev → PciConfig → PciConfig
write_dev dev_num reg v d p = record p {
  devs = update p.devs dev_num (some (dev_write reg v d));
  mem_gen = if dev_num == 0 && leb 0x80 reg then u32 (p.mem_gen + 1) else p.mem_gen;
}

abbrev pub write_found : ℕ → ℕ → ℕ → Option Dev → PciConfig → PciConfig
write_found dev_num reg v none p = p
write_found dev_num reg v (some d) p = write_dev dev_num reg v d p

unfoldable pub write_data : ℕ → ℕ → PciConfig → PciConfig
write_data lane v p =
    if not (has p.addr 0x8000_0000)
    then p
    else if bus_of p.addr != 0
    then note_write p
    else write_found (dev_of p.addr) (reg_of p.addr lane) v (p.devs (dev_of p.addr)) (note_write p)
