-- ===== src/Cache/Bytes.antt =====
-- The bytes of a cache line (core/src/cache.cpp): the set, the tag and the value of an access. An array
-- of bytes is a function of its index, and a pointer into it the function from there on.
use open_power_mac.Prelude.{
  ℕ, zero, suc, ◌+◌, ◌-◌, ◌*◌, ◌^◌, bit_and, bit_or, ◌==◌, ltb, if◌then◌else◌, u8, u16, u32, u64,
  shl32, ◌>>>◌,
}

abbrev pub Line : Type 0
Line = ℕ → ℕ

unfoldable pub set_of : ℕ → ℕ
set_of pa = bit_and (pa >>> 5) 127

unfoldable pub tag_of : ℕ → ℕ
tag_of pa = pa >>> 12

-- The entry of a valid block in the index.
unfoldable pub tv_of : ℕ → ℕ
tv_of pa = bit_or (shl32 (tag_of pa) 1) 1

-- The block of a set and a tag.
unfoldable pub block_base : ℕ → ℕ → ℕ
block_base set tag = bit_or (shl32 tag 12) (shl32 set 5)

abbrev pub wimg_w : ℕ
wimg_w = 8

abbrev pub wimg_i : ℕ
wimg_i = 4

-- `memcpy` of the first n bytes into an unsigned word of a little-endian host.
unfoldable pub from_host : ℕ → Line → ℕ
from_host zero p = 0
from_host (suc n) p = p 0 + 256 * from_host n (λ k. p (suc k))

-- `memcpy` of such a word over the first n bytes.
unfoldable pub to_host : ℕ → ℕ → Line → Line
to_host n t p k = if ltb k n then u8 (t >>> (8 * k)) else p k

unfoldable pub swap2 : ℕ → ℕ
swap2 v = u16 (bit_or (v >>> 8) (v * 2 ^ 8))

unfoldable pub swap4 : ℕ → ℕ
swap4 v =
    bit_or
      (bit_or (bit_or (shl32 (bit_and v 0xff) 24) (shl32 (bit_and v 0xff00) 8))
        (bit_and (v >>> 8) 0xff00))
      (v >>> 24)

-- `v << k` on a 64-bit unsigned word.
abbrev shl64 : ℕ → ℕ → ℕ
shl64 v k = u64 (v * 2 ^ k)

unfoldable pub swap8 : ℕ → ℕ
swap8 v =
    let a =
      bit_or (shl64 (bit_and v 0x00ff_00ff_00ff_00ff) 8)
        (bit_and (v >>> 8) 0x00ff_00ff_00ff_00ff) in
    let b =
      bit_or (shl64 (bit_and a 0x0000_ffff_0000_ffff) 16)
        (bit_and (a >>> 16) 0x0000_ffff_0000_ffff) in
    bit_or (shl64 b 32) (b >>> 32)

-- The general loop: one more byte at the low end each time.
unfoldable pub load_loop : ℕ → Line → ℕ → ℕ
load_loop zero p v = v
load_loop (suc n) p v = load_loop n (λ k. p (suc k)) (bit_or (shl64 v 8) (p 0))

unfoldable pub line_load_be : Line → ℕ → ℕ
line_load_be p len =
    if len == 1
    then p 0
    else if len == 2
    then swap2 (from_host 2 p)
    else if len == 4
    then swap4 (from_host 4 p)
    else if len == 8
    then swap8 (from_host 8 p)
    else load_loop len p 0

unfoldable pub line_store_be : Line → ℕ → ℕ → Line
line_store_be p len v =
    if len == 1
    then to_host 1 (u8 v) p
    else if len == 2
    then to_host 2 (swap2 (u16 v)) p
    else if len == 4
    then to_host 4 (swap4 (u32 v)) p
    else if len == 8
    then to_host 8 (swap8 v) p
    else λ k. if ltb k len then u8 (v >>> (8 * (len - 1 - k))) else p k

-- `&b[o]`, read and written through.
unfoldable pub from_offset : ℕ → Line → Line
from_offset o b k = b (o + k)

unfoldable pub at_offset : ℕ → (Line → Line) → Line → Line
at_offset o f b k = if ltb k o then b k else f (from_offset o b) (k - o)

-- The big-endian word at a byte offset.
abbrev pub word_at : Line → ℕ → ℕ
word_at b o =
    bit_or (bit_or (bit_or (shl32 (b o) 24) (shl32 (b (o + 1)) 16)) (shl32 (b (o + 2)) 8))
      (b (o + 3))
