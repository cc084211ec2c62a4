-- ===== src/Pci/Tests.antt =====
-- The machine's configuration space: the display's aperture sized and placed as firmware does it.
use open_power_mac.Prelude.{◌≡◌, refl, [], ◌∷◌, if◌then◌else◌, ◌==◌, arith}
use open_power_mac.Prelude.BitLaws.{bit}
use open_power_mac.Pci.Config.{
  PciConfig, initial, ati, set_addr, reg_of, read_data, write_data, bar_byte, dev_write, write_dev,
  mask_byte_of,
}
use open_power_mac.Pci.Banks.{ati_base, le32}
use open_power_mac.Pci.BarLaws.{
  Selected, write-read_bar, FixedAt, address, read_byte, write_byte, run, run-FixedAt,
}
use open_power_mac.Pci.BankLaws.{SameInterface, write_data-SameInterface}

-- The address register at the display's first base address register.
abbrev at_bar : PciConfig
at_bar = set_addr 0x8000_9010 initial

-- And at its second one.
abbrev at_io_bar : PciConfig
at_io_bar = set_addr 0x8000_9014 initial

sized : (read_data 2 (write_data 2 0xff at_bar)).0 ≡ 0x80
unfolding read_data write_data write_dev dev_write bar_byte
sized = refl

placed : ati_base (write_data 3 0x81 at_bar) ≡ 0x8100_0000
unfolding ati_base le32 write_data write_dev dev_write bar_byte
placed = refl

-- The I/O marker of the second base address register is lost by a write that does not repeat it.
io_marker : (read_data 0 (write_data 0 0 at_io_bar)).0 ≡ 0
unfolding read_data write_data write_dev dev_write bar_byte
io_marker = refl

at_io_bar-Selected : Selected at_io_bar ati
at_io_bar-Selected = record { enabled = refl; bus_zero = refl; present = refl }

write-read_bar_example : bit (read_data 0 (write_data 0 0xfe at_io_bar)).0 0 ≡ (
    if bit (mask_byte_of ati (reg_of at_io_bar.addr 0)) 0 == 1
    then bit 0xfe 0
    else bit (read_data 0 at_io_bar).0 0)
write-read_bar_example =
    write-read_bar 0 0xfe 0 at_io_bar ati at_io_bar-Selected refl (omega arith) (omega arith)

run-FixedAt_example :
    FixedAt
      (initial.devs 0x12)
      ((run (address 0x8000_9010 ∷ write_byte 3 0x81 ∷ read_byte 3 ∷ []) initial).devs 0x12)
run-FixedAt_example =
    run-FixedAt (address 0x8000_9010 ∷ write_byte 3 0x81 ∷ read_byte 3 ∷ []) 0x12 initial

write_data-SameInterface_example : SameInterface at_bar (write_data 3 0x81 at_bar)
unfolding write_data write_dev
write_data-SameInterface_example = write_data-SameInterface 3 0x81 at_bar (omega arith) refl
