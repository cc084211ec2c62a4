-- ===== src/Cache/RoundTrip.antt =====
-- A value written through both cache levels and read back (memWrite and memRead of core/src/cache.cpp).
use open_power_mac.Prelude.{
  ℕ, zero, suc, ◌+◌, ◌-◌, ◌*◌, ◌/◌, ◌%◌, ◌^◌, ◌≤◌, ◌<◌, ◌≡◌, refl, sym, ap, ap₂, ◌∙◌, inl, inr,
  true, false, arith, has, u8, ◌>>>◌,
}
use native.Mathlib.Nat.{
  pow-succ', mod-eq_of_lt, one-le-pow, mul-add-mod_self_left, div-add-mod, mod-lt, mul-le-mul_left,
}
use open_power_mac.Prelude.BitLaws.{pow_split}
use open_power_mac.Cpu.{CpuState}
use open_power_mac.Cache.Bytes.{wimg_i, wimg_w}
use open_power_mac.Cache.Index.{Cache}
use open_power_mac.Cache.View.{Coherent, cached_byte}
use open_power_mac.Cache.StoredBytes.{Size, big_endian}
use open_power_mac.Cache.StoreLaws.{put_bytes, put_bytes_in, put_bytes_out, written_or_not}
use open_power_mac.Cache.ReadLaws.{IsBytes, big_endian_cong, mem_read_flat}
use open_power_mac.Cache.WriteLaws.{mem_write_flat}
use open_power_mac.Cache.Data.{dce_on, mem_read, mem_write}
use open_power_mac.Cache.Second.{Bus, Backside, l2_on, backside, IsRam, L2Coherent, l2_byte}
use open_power_mac.Cache.Second.Memory.{backside-IsBacking}

byte_power : (n : ℕ) → 2 ^ (8 * n) ≡ 256 ^ n
byte_power zero = refl
byte_power (suc n) =
    let index : 8 * suc n ≡ 8 + 8 * n = omega arith in
    ap (λ (t : ℕ). 2 ^ t) index
    ∙ pow_split 8 (8 * n)
    ∙ ap (λ (t : ℕ). 2 ^ 8 * t) (byte_power n)
    ∙ sym (pow-succ' 256 n)

-- The highest of suc n bytes and the others.
top_byte : (v P : ℕ) → 1 ≤ P → v / P % 256 * P + v % P ≡ v % (256 * P)
top_byte v P pos =
    let q = v / P in
    let r = v % P in
    let whole : P * q + r ≡ v = div-add-mod v P in
    let digits : 256 * (q / 256) + q % 256 ≡ q = div-add-mod q 256 in
    let small : q % 256 + 1 ≤ 256 = omega arith in
    let left : r < P = mod-lt v pos in
    let scaled : P * (q % 256 + 1) ≤ P * 256 = mul-le-mul_left P small in
    let low : q % 256 * P + r < 256 * P = omega arith in
    let spread : P * (256 * (q / 256) + q % 256) ≡ P * q = ap (λ (t : ℕ). P * t) digits in
    let high : 256 * P * (q / 256) ≡ P * (256 * (q / 256)) = omega arith in
    let shape : 256 * P * (q / 256) + (q % 256 * P + r) ≡ v = omega arith in
    sym (mod-eq_of_lt low)
    ∙ sym (mul-add-mod_self_left (256 * P) (q / 256) (q % 256 * P + r))
    ∙ ap (λ (t : ℕ). t % (256 * P)) shape

-- The bytes of a value, the highest first, make its low part.
big_endian_bytes : (n v : ℕ) → big_endian n (λ k. u8 (v >>> (8 * (n - 1 - k)))) ≡ v % 256 ^ n
unfolding big_endian
big_endian_bytes zero v = omega arith
big_endian_bytes (suc n) v =
    let first : suc n - 1 - 0 ≡ n = omega arith in
    let P = 256 ^ n in
    ap₂ (λ (s t : ℕ). u8 (v / s) * P + t) (ap (λ (t : ℕ). 2 ^ (8 * t)) first ∙ byte_power n)
      (big_endian_cong n _ _ (λ k h. shifted n k) ∙ big_endian_bytes n v)
    ∙ top_byte v P (one-le-pow n 256 (omega arith))
    ∙ ap (λ (t : ℕ). v % t) (sym (pow-succ' 256 n))
  where
    shifted : (n k : ℕ) → u8 (v >>> (8 * (suc n - 1 - suc k))) ≡ u8 (v >>> (8 * (n - 1 - k)))
    shifted n k =
        let index : suc n - 1 - suc k ≡ n - 1 - k = omega arith in
        ap (λ (t : ℕ). u8 (v >>> (8 * t))) index

big_endian-put :
    (len pa v : ℕ) (f : ℕ → ℕ) → big_endian len (λ k. put_bytes len pa v f (pa + k)) ≡ v % 256 ^ len
big_endian-put len pa v f =
    big_endian_cong len _ _ (λ k h.
      let back : pa + k - pa ≡ k = omega arith in
      put_bytes_in len pa v f (pa + k) (omega arith) (omega arith)
      ∙ ap (λ (t : ℕ). u8 (v >>> (8 * (len - 1 - t)))) back)
    ∙ big_endian_bytes len v

pub put_bytes-IsBytes : (len pa v : ℕ) (f : ℕ → ℕ) → IsBytes f → IsBytes (put_bytes len pa v f)
put_bytes-IsBytes len pa v f h a ha = elim (written_or_not len pa a) [
  | inl (low, near) ↦ omega (arith, put_bytes_in len pa v f a low near)
  | inr out ↦ omega (arith, put_bytes_out len pa v f a out, h a ha)
]

module _ {M : Type 0} (bus : Bus M) (ram : M → ℕ → ℕ) (law : IsRam bus ram) (st : CpuState) where
  -- A value of 1, 2, 4 or 8 bytes that is written through both cache levels, over a bus that is a flat
  -- memory, is read back at the same address, cut to its size, and the caches stay coherent; the access may
  -- cross a block. Both caches are on, the page is neither inhibited nor write-through, and the caches are
  -- coherent and hold bytes.
  pub mem_read-mem_write :
      (pa len v wimg : ℕ) (c : Cache (Backside M))
      → l2_on st ≡ true
      → dce_on st ≡ true
      → has wimg wimg_i ≡ false
      → has wimg wimg_w ≡ false
      → Coherent (L2Coherent ram) (l2_byte ram) c
      → IsBytes (cached_byte (l2_byte ram) c)
      → Size len
      → pa < 2 ^ 32
      → pa + len ≤ 2 ^ 32
      → v < 2 ^ 64
      → ((mem_read
            (backside bus st)
            st
            pa
            len
            wimg
            (mem_write (backside bus st) st pa len v wimg c)).0
          ≡ v % 256 ^ len)
        × Coherent (L2Coherent ram) (l2_byte ram) (mem_write (backside bus st) st pa len v wimg c)
  mem_read-mem_write pa len v wimg c l2 on cached back ok bytes sz hp top hv =
      let lower = backside-IsBacking bus ram law st l2 in
      let write = λ (a : ℕ) (ha : a < 2 ^ 32).
        mem_write_flat (backside bus st) (L2Coherent ram) (l2_byte ram) lower st pa len v wimg a c
          ok on cached back sz hp top hv ha in
      let c' = mem_write (backside bus st) st pa len v wimg c in
      let ok' = (write pa hp).0 in
      let bytes' : IsBytes (cached_byte (l2_byte ram) c') = λ a ha. omega (
        arith,
        (write a ha).1,
        put_bytes-IsBytes len pa v (cached_byte (l2_byte ram) c) bytes a ha,
      ) in
      let read =
        mem_read_flat (backside bus st) (L2Coherent ram) (l2_byte ram) lower st pa len wimg pa c'
          ok' bytes' on cached sz hp top hp in
      (
        read.0
            ∙ big_endian_cong len _ _ (λ k h. (write (pa + k) (omega arith)).1)
            ∙ big_endian-put len pa v (cached_byte (l2_byte ram) c),
        ok',
      )
