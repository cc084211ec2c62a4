-- ===== src/SoftFloat.antt =====
-- core/src/softfp.cpp: the conversions between the single format of memory and the double format of
-- the floating registers.
use open_power_mac.Prelude.{
  ℕ, ◌+◌, ◌-◌, ◌==◌, ◌||◌, ltb, leb, bit_and, bit_or, if◌then◌else◌, u32, u64, ◌>>>◌, shl32, ◌*◌,
  ◌^◌,
}
use open_power_mac.Integer.{countl_zero}

-- `x << k` on a 64-bit unsigned word.
abbrev shl64 : ℕ → ℕ → ℕ
shl64 x k = u64 (x * 2 ^ k)

unfoldable pub load_single : ℕ → ℕ
load_single w =
    let s = shl64 (w >>> 31) 63 in
    let e = bit_and (w >>> 23) 0xff in
    let frac = bit_and w 0x7f_ffff in
    let m = 31 - countl_zero 32 frac in
    let mant = bit_and (shl64 frac (52 - m)) 0x000f_ffff_ffff_ffff in
    if e == 255
    then bit_or (bit_or s 0x7ff0_0000_0000_0000) (shl64 frac 29)
    else if e == 0
    then (if frac == 0 then s else bit_or (bit_or s (shl64 (m + 1023 - 149) 52)) mant)
    else bit_or (bit_or s (shl64 (e + 896) 52)) (shl64 frac 29)

unfoldable pub store_single : ℕ → ℕ
store_single f =
    let sign = shl32 (u32 (f >>> 63)) 31 in
    let e = bit_and (u32 (f >>> 52)) 0x7ff in
    let frac = bit_or (2 ^ 52) (bit_and f 0x000f_ffff_ffff_ffff) in
    let sh = 896 + 1 - e in
    if ltb 896 e || bit_and f 0x7fff_ffff_ffff_ffff == 0
    then bit_or (shl32 (u32 (f >>> 62)) 30) (bit_and (u32 (f >>> 29)) 0x3fff_ffff)
    else if leb 874 e
    then bit_or sign (bit_and (u32 (frac >>> (sh + 29))) 0x7f_ffff)
    else sign
