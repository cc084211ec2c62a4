-- ===== src/Cuda/Packets.antt =====
-- The packet engine of the Cuda (machine/src/cuda.cpp, machine/include/opm/cuda.hpp). A packet is a list
-- of bytes, the parameter memory and the census of commands are functions.
use open_power_mac.Prelude.{
  ℕ, zero, suc, ◌+◌, ◌-◌, Bool, not, ◌&&◌, ◌||◌, ◌==◌, ◌!=◌, ltb, leb, if◌then◌else◌, List, [], ◌∷◌,
  length, get_or, update, u8, u32, u64, shl32, sub32, bit_and, bit_or, ◌>>>◌,
}

pub record Cuda : Type 0 where
  pub pram : ℕ → ℕ
  pub resp : List ℕ
  pub cmd_log : ℕ → ℕ
  pub autopoll : Bool
  pub time_offset : ℕ

-- The serial presence detect memory of the DIMM.
abbrev pub spd : List ℕ
spd =
    0x80 ∷ 0x08 ∷ 0x04 ∷ 0x0c ∷ 0x09 ∷ 0x01 ∷ 0x40 ∷ 0x00 ∷ 0x01 ∷ 0x0a ∷ 0x07 ∷ 0x00 ∷ 0x80 ∷ 0x08
    ∷ 0x00 ∷ 0x01 ∷ 0x0f ∷ 0x04 ∷ 0x0c ∷ 0x01 ∷ 0x01 ∷ 0x00 ∷ 0x0e ∷ 0x0a ∷ 0x00 ∷ 0x00 ∷ 0x00
    ∷ 0x00 ∷ 0x00 ∷ 0x00 ∷ 0x00 ∷ 0x10 ∷ 0x00 ∷ 0x00 ∷ 0x00 ∷ 0x00 ∷ 0x00 ∷ 0x00 ∷ 0x00 ∷ 0x00
    ∷ 0x00 ∷ 0x00 ∷ 0x00 ∷ 0x00 ∷ 0x00 ∷ 0x00 ∷ 0x00 ∷ 0x00 ∷ 0x00 ∷ 0x00 ∷ 0x00 ∷ 0x00 ∷ 0x00
    ∷ 0x00 ∷ 0x00 ∷ 0x00 ∷ 0x00 ∷ 0x00 ∷ 0x00 ∷ 0x00 ∷ 0x00 ∷ 0x00 ∷ 0x12 ∷ 0x00 ∷ []

abbrev pub rtc_base : ℕ
rtc_base = 3029529600

-- The sum of the first n bytes.
unfoldable pub spd_sum : ℕ → ℕ
spd_sum zero = 0
spd_sum (suc n) = u32 (spd_sum n + get_or spd n 0)

-- n bytes of the memory from one on; the last byte of it is the checksum.
unfoldable pub spd_from : ℕ → ℕ → List ℕ
spd_from zero k = []
spd_from (suc n) k = (if k == 63 then u8 (spd_sum 63) else get_or spd k 0) ∷ spd_from n (suc k)

unfoldable pub reply : List ℕ → Cuda → Cuda
reply r c = record c { resp = r }

unfoldable pub has_response : Cuda → Bool
has_response c = length c.resp != 0

unfoldable pub consume_response : Cuda → Cuda
consume_response c = record c { resp = [] }

-- A byte of a packet, or what the code takes when the packet is shorter.
abbrev pub byte_or : List ℕ → ℕ → ℕ → ℕ
byte_or pkt i d = if ltb i (length pkt) then get_or pkt i 0 else d

unfoldable pub get_time : Cuda → List ℕ
get_time c =
    let t = u32 (rtc_base + c.time_offset) in
    u8 (t >>> 24) ∷ u8 (t >>> 16) ∷ u8 (t >>> 8) ∷ u8 t ∷ []

unfoldable pub set_time : List ℕ → Cuda → Cuda
set_time pkt c =
    let t =
      bit_or
        (bit_or (bit_or (shl32 (get_or pkt 2 0) 24) (shl32 (get_or pkt 3 0) 16))
          (shl32 (get_or pkt 4 0) 8))
        (get_or pkt 5 0) in
    if leb 6 (length pkt) then record c { time_offset = sub32 t rtc_base } else c

unfoldable pub set_pram : List ℕ → Cuda → Cuda
set_pram pkt c =
    if ltb 3 (length pkt)
    then record c { pram = update c.pram (get_or pkt 2 0) (get_or pkt 3 0) }
    else c

unfoldable pub pseudo : List ℕ → Cuda → Cuda
pseudo pkt c =
    let cmd = byte_or pkt 1 0xff in
    let wa = byte_or pkt 2 0 in
    let sub = byte_or pkt 3 0 in
    let echo = λ (more : List ℕ). reply (1 ∷ 0 ∷ cmd ∷ more) in
    let absent = reply (2 ∷ 0 ∷ cmd ∷ []) c in
    if cmd == 0x03
    then echo (get_time c) c
    else if cmd == 0x09
    then echo [] (set_time pkt c)
    else if cmd == 0x07
    then echo (c.pram (byte_or pkt 2 0) ∷ []) c
    else if cmd == 0x0c
    then echo [] (set_pram pkt c)
    else if cmd == 0x01
    then echo [] (record c { autopoll = ltb 2 (length pkt) && (get_or pkt 2 0 != 0) })
    else if cmd == 0x25
    then (if wa == 0xa0 then echo (spd_from (64 - sub) sub) c else absent)
    else if cmd == 0x22
    then (if bit_and wa 0xfe == 0xa0
        then echo (if bit_and wa 1 != 0 then spd_from (64 - sub) sub else []) c
        else absent)
    else echo [] c

unfoldable pub adb : List ℕ → Cuda → Cuda
adb pkt c =
    let cmd = byte_or pkt 1 0 in
    let addr = cmd >>> 4 in
    let op = bit_and (cmd >>> 2) 3 in
    let regn = bit_and cmd 3 in
    let present = (addr == 2) || (addr == 3) in
    if op == 3
    then (if not present
        then reply (0 ∷ 1 ∷ cmd ∷ []) c
        else if regn == 3
        then reply (0 ∷ 0 ∷ cmd ∷ u8 (bit_or 0x60 addr) ∷ (if addr == 2 then 2 else 1) ∷ []) c
        else reply (0 ∷ 1 ∷ cmd ∷ []) c)
    else reply (0 ∷ 0 ∷ cmd ∷ []) c

unfoldable pub host_packet : List ℕ → Cuda → Cuda
host_packet [] c = c
host_packet (kind ∷ rest) c =
    let pkt = kind ∷ rest in
    let key = bit_or (shl32 kind 8) (byte_or pkt 1 0) in
    let c' = record c { cmd_log = update c.cmd_log key (u64 (c.cmd_log key + 1)) } in
    if kind == 0
    then adb pkt c'
    else if kind == 1
    then pseudo pkt c'
    else reply (2 ∷ 2 ∷ kind ∷ []) c'
