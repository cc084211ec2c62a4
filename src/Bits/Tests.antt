-- ===== src/Bits/Tests.antt =====
-- Masks and fields at concrete numbers.
use open_power_mac.Prelude.{◌≡◌, refl, arith, flag}
use open_power_mac.Bits.Numbering.{ppcbit, ppcmask}
use open_power_mac.Bits.Laws.{in_mask, ppcmask_bits}

wrapped_mask : ppcmask 28 3 ≡ 0xf000_000f
unfolding ppcmask
wrapped_mask = refl

ppcmask_bits_example : ppcbit (ppcmask 28 3) 30 ≡ flag (in_mask 28 3 30)
ppcmask_bits_example = ppcmask_bits 28 3 30 (omega arith) (omega arith) (omega arith)
