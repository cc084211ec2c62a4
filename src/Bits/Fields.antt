-- ===== src/Bits/Fields.antt =====
-- The named instruction fields of core/include/opm/bits.hpp, and alignDsisr.
use open_power_mac.Prelude.{ℕ, bit_or, if◌then◌else◌, ◌==◌, shl32}
use open_power_mac.Bits.Numbering.{ppcbits, ppcbit}

unfoldable pub f_primary : ℕ → ℕ
f_primary i = ppcbits i 0 5

unfoldable pub f_rt : ℕ → ℕ
f_rt i = ppcbits i 6 10

unfoldable pub f_ra : ℕ → ℕ
f_ra i = ppcbits i 11 15

unfoldable pub f_rb : ℕ → ℕ
f_rb i = ppcbits i 16 20

unfoldable pub f_d : ℕ → ℕ
f_d i = ppcbits i 16 31

unfoldable pub f_xo10 : ℕ → ℕ
f_xo10 i = ppcbits i 21 30

unfoldable pub f_xo5 : ℕ → ℕ
f_xo5 i = ppcbits i 26 30

unfoldable pub f_xo6v : ℕ → ℕ
f_xo6v i = ppcbits i 26 31

unfoldable pub f_xo11v : ℕ → ℕ
f_xo11v i = ppcbits i 21 31

unfoldable pub f_rcbit : ℕ → ℕ
f_rcbit i = ppcbit i 31

unfoldable pub f_oebit : ℕ → ℕ
f_oebit i = ppcbit i 21

unfoldable pub f_lkbit : ℕ → ℕ
f_lkbit i = ppcbit i 31

unfoldable pub f_aabit : ℕ → ℕ
f_aabit i = ppcbit i 30

unfoldable pub f_crfd : ℕ → ℕ
f_crfd i = ppcbits i 6 8

unfoldable pub f_crfs : ℕ → ℕ
f_crfs i = ppcbits i 11 13

unfoldable pub f_sh : ℕ → ℕ
f_sh i = ppcbits i 16 20

unfoldable pub f_mb : ℕ → ℕ
f_mb i = ppcbits i 21 25

unfoldable pub f_me : ℕ → ℕ
f_me i = ppcbits i 26 30

unfoldable pub f_spr : ℕ → ℕ
f_spr i = bit_or (shl32 (ppcbits i 16 20) 5) (ppcbits i 11 15)

unfoldable pub f_crm : ℕ → ℕ
f_crm i = ppcbits i 12 19

unfoldable pub f_nb : ℕ → ℕ
f_nb i = ppcbits i 16 20

unfoldable pub f_to : ℕ → ℕ
f_to i = ppcbits i 6 10

unfoldable pub f_sr : ℕ → ℕ
f_sr i = ppcbits i 12 15

-- The DSISR opcode image that an alignment exception leaves.
unfoldable pub align_dsisr : ℕ → ℕ
align_dsisr i =
    let d = bit_or (shl32 (ppcbits i 6 10) 5) (ppcbits i 11 15) in
    if f_primary i == 31
    then bit_or d (
        bit_or (bit_or (shl32 (ppcbits i 29 30) 15) (shl32 (ppcbit i 25) 14))
          (shl32 (ppcbits i 21 24) 10))
    else bit_or d (bit_or (shl32 (ppcbit i 5) 14) (shl32 (ppcbits i 1 4) 10))
