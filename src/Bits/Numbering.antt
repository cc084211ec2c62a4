-- ===== src/Bits/Numbering.antt =====
-- core/include/opm/bits.hpp: fields of an instruction word by PowerPC bit numbers (bit 0 is the most
-- significant of 32), sign extensions, rotate masks and the DSISR image of an alignment exception.

use open_power_mac.Prelude.{
  ℕ, ◌+◌, ◌-◌, ◌^◌, bit_and, bit_or, if◌then◌else◌, leb, ◌==◌, not32, shl32, ◌>>>◌,
}

-- Value of the bit range [hi..lo].
unfoldable pub ppcbits : ℕ → ℕ → ℕ → ℕ
ppcbits w hi lo =
    let width = lo + 1 - hi in
    let mask = if leb 32 width then 0xffff_ffff else 2 ^ width - 1 in bit_and (w >>> (31 - lo)) mask

unfoldable pub ppcbit : ℕ → ℕ → ℕ
ppcbit w b = bit_and (w >>> (31 - b)) 1

unfoldable pub ppcmask : ℕ → ℕ → ℕ
ppcmask mb me =
    let x = 0xffff_ffff >>> mb in
    let y = if me == 31 then 0xffff_ffff else not32 (0xffff_ffff >>> (me + 1)) in
    if leb mb me then bit_and x y else bit_or x y

-- The sign extensions, as the 32-bit pattern of the `i32`: a left shift drops the bits above the
-- field and the arithmetic right shift copies its sign.
unfoldable pub sar32 : ℕ → ℕ → ℕ
sar32 x n = if leb (2 ^ 31) x then not32 (not32 x >>> n) else x >>> n

unfoldable pub sext16 : ℕ → ℕ
sext16 v = let low = bit_and v 0xffff in if leb 0x8000 low then low + 0xffff_0000 else low

unfoldable pub sext26 : ℕ → ℕ
sext26 v = sar32 (shl32 v 6) 6

unfoldable pub sext14 : ℕ → ℕ
sext14 v = sar32 (shl32 v 18) 18

unfoldable pub sext5 : ℕ → ℕ
sext5 v = sar32 (shl32 v 27) 27
