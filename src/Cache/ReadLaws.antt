-- ===== src/Cache/ReadLaws.antt =====
-- Reads through the data cache (memRead of core/src/cache.cpp) against the flat memory of bytes that the
-- cache presents.
use open_power_mac.Prelude.{
  ℕ, zero, suc, ◌+◌, ◌*◌, ◌%◌, ◌^◌, ◌≤◌, ◌<◌, ◌≡◌, refl, sym, ap, ap₂, ◌∙◌, inl, inr, true, false,
  bit_and, bit_or, arith, ◌>>>◌, ltb, has, u32, u64, Bool-cases, ltb→le,
}
use native.Mathlib.Nat.{
  pow-succ', mul_assoc, add-mul, mul-le-mul_left, mul-le-mul_right, mod-eq_of_lt, one-le-pow,
}
use open_power_mac.Prelude.BitLaws.{bit_or_disjoint}
use open_power_mac.Cpu.{CpuState}
use open_power_mac.Cache.Bytes.{Line, set_of, wimg_i, from_offset}
use open_power_mac.Cache.Lower.{Lower, IsBacking}
use open_power_mac.Cache.Places.{line_offset, same_block_place}
use open_power_mac.Cache.Index.{Cache, line_way}
use open_power_mac.Cache.View.{Coherent, cached_byte, cached_byte_hit}
use open_power_mac.Cache.Serve.{Serves, Holds-block, served}
use open_power_mac.Cache.StoredBytes.{Size, big_endian, line_load_be_lem}
use open_power_mac.Cache.Data.{dce_on, hit_or_fill, read_block, read_split, mem_read}

-- Every byte of a flat memory is a byte.
abbrev pub IsBytes : (ℕ → ℕ) → Type 0
IsBytes f = (a : ℕ) → a < 2 ^ 32 → f a < 2 ^ 8

pub big_endian_cong :
    (n : ℕ) (p q : ℕ → ℕ) → ((k : ℕ) → k < n → p k ≡ q k) → big_endian n p ≡ big_endian n q
unfolding big_endian
big_endian_cong zero p q h = refl
big_endian_cong (suc n) p q h =
    ap₂ (λ (s t : ℕ). s * 256 ^ n + t) (h 0 (omega arith))
      (big_endian_cong n (λ k. p (suc k)) (λ k. q (suc k)) (λ k low. h (suc k) (omega arith)))

module _ {S : Type 0} (lo : Lower S) (Ok : S → Type 0) (view : S → ℕ → ℕ)
    (law : IsBacking lo Ok view) where
  -- What the way that serves an access has at an offset.
  served_byte :
      (pa w k : ℕ) (c c' : Cache S)
      → pa + k < 2 ^ 32
      → pa % 32 + k < 32
      → Serves lo Ok view law pa w c c'
      → (c'.ways (set_of pa) w).b (bit_and pa 31 + k) ≡ cached_byte view c (pa + k)
  served_byte pa w k c c' hk inside sv =
      let hp : pa < 2 ^ 32 = omega arith in
      let same : (pa + k) >>> 5 ≡ pa >>> 5 = omega arith in
      let place : bit_and (pa + k) 31 ≡ bit_and pa 31 + k =
        omega (arith, line_offset (pa + k), line_offset pa) in
      ap (λ (t : ℕ). (c'.ways (set_of pa) w).b t) (sym place)
      ∙ ap (λ (t : ℕ). (c'.ways t w).b (bit_and (pa + k) 31))
          (sym (same_block_place (pa + k) pa hk hp same).0)
      ∙ sym (
          cached_byte_hit Ok view (pa + k) w c' hk sv.coherent
            (Holds-block pa (pa + k) w c' hp hk (sym same) sv.holds))
      ∙ sv.same_bytes (pa + k) hk

  -- A read within a block.
  pub read_block_flat :
      (pa len : ℕ) (c : Cache S)
      → Coherent Ok view c
      → pa + len ≤ 2 ^ 32
      → pa % 32 + len ≤ 32
      → pa < 2 ^ 32
      → Size len
      → IsBytes (cached_byte view c)
      → ((read_block lo pa len c).0 ≡ big_endian len (λ k. cached_byte view c (pa + k)))
        × Coherent Ok view ((read_block lo pa len c).1)
        × ((a : ℕ)
            → a < 2 ^ 32
            → cached_byte view ((read_block lo pa len c).1) a ≡ cached_byte view c a)
  unfolding read_block from_offset
  read_block_flat pa len c ok top inside hp size bytes =
      let r = hit_or_fill lo pa ((line_way pa c).0) ((line_way pa c).1) in
      let sv = served lo Ok view law pa hp c ok in
      let line : Line = λ k. ((r.1).ways (set_of pa) (r.0)).b (bit_and pa 31 + k) in
      let at : (k : ℕ) → k < len → line k ≡ cached_byte view c (pa + k) =
        λ k h. served_byte pa (r.0) k c (r.1) (omega arith) (omega arith) sv in
      (
        line_load_be_lem line len size (λ k h. omega (arith, at k h, bytes (pa + k) (omega arith)))
            ∙ big_endian_cong len line (λ k. cached_byte view c (pa + k)) at,
        sv.coherent,
        sv.same_bytes,
      )

  one_byte : (x : ℕ) → x * 256 ^ 0 + 0 ≡ x
  one_byte x = omega arith

  shifted : (a k : ℕ) → suc a + k ≡ a + suc k
  shifted a k = omega arith

  no_offset : (a : ℕ) → a + 0 ≡ a
  no_offset a = omega arith

  digit : (v x P T : ℕ) → (v * 256 + x) * P + T ≡ v * (256 * P) + (x * P + T)
  digit v x P T = omega (arith, add-mul (v * 256) x P, mul_assoc v 256 P)

  -- One more byte of a split read.
  next_byte :
      (v b P : ℕ)
      → b < 2 ^ 8
      → (v + 1) * (256 * P) ≤ 2 ^ 64
      → 1 ≤ P
      → (bit_or (u64 (v * 2 ^ 8)) b ≡ v * 256 + b) × ((v * 256 + b + 1) * P ≤ 2 ^ 64)
  next_byte v b P hb top pos =
      let scaled : (v + 1) * (256 * P) ≡ ((v + 1) * 256) * P = sym (mul_assoc (v + 1) 256 P) in
      let small : (v * 256 + b + 1) * P ≤ ((v + 1) * 256) * P = mul-le-mul_right P (omega arith) in
      let enough : (v + 1) * 256 * 1 ≤ (v + 1) * 256 * P = mul-le-mul_left ((v + 1) * 256) pos in
      (
        ap (λ (t : ℕ). bit_or t b) (mod-eq_of_lt (omega arith)) ∙ bit_or_disjoint 8 v b hb,
        omega arith,
      )

  read_split_flat :
      (n pa v : ℕ) (c : Cache S)
      → Coherent Ok view c
      → pa + n ≤ 2 ^ 32
      → (v + 1) * 256 ^ n ≤ 2 ^ 64
      → IsBytes (cached_byte view c)
      → ((read_split lo n pa v c).0 ≡ v * 256 ^ n + big_endian n (λ k. cached_byte view c (pa + k)))
        × Coherent Ok view ((read_split lo n pa v c).1)
        × ((a : ℕ)
            → a < 2 ^ 32
            → cached_byte view ((read_split lo n pa v c).1) a ≡ cached_byte view c a)
  unfolding read_split big_endian Size
  read_split_flat zero pa v c ok top room bytes = (omega arith, ok, λ a ha. refl)
  read_split_flat (suc n) pa v c ok top room bytes =
      let same_pa : u32 pa ≡ pa = mod-eq_of_lt (omega arith) in
      let plain : u32 pa + 0 ≡ pa = omega (arith, same_pa) in
      let (value, ok', same) =
        read_block_flat (u32 pa) 1 c ok (omega arith) (omega arith) (omega arith) (inl refl)
          bytes in
      let b = (read_block lo (u32 pa) 1 c).0 in
      let c' = (read_block lo (u32 pa) 1 c).1 in
      let first : b ≡ cached_byte view c pa =
        value ∙ one_byte (cached_byte view c (u32 pa + 0)) ∙ ap (cached_byte view c) plain in
      let small : b < 2 ^ 8 = omega (arith, first, bytes pa (omega arith)) in
      let power : 256 ^ suc n ≡ 256 * 256 ^ n = pow-succ' 256 n in
      let (v', room') =
        next_byte v b (256 ^ n) small (rw power at room) (one-le-pow n 256 (omega arith)) in
      let bytes' : IsBytes (cached_byte view c') = λ a ha. omega (arith, same a ha, bytes a ha) in
      let (out, ok'', same') =
        read_split_flat n (suc pa) (bit_or (u64 (v * 2 ^ 8)) b) c' ok' (omega arith) (rw v' room')
          bytes' in
      let tail : big_endian n (λ k. cached_byte view c' (suc pa + k))
          ≡ big_endian n (λ k. cached_byte view c (pa + suc k)) =
        big_endian_cong n _ _
          (λ k h. same (suc pa + k) (omega arith) ∙ ap (cached_byte view c) (shifted pa k)) in
      let here : cached_byte view c (pa + 0) ≡ cached_byte view c pa =
        ap (cached_byte view c) (no_offset pa) in
      (
        out
            ∙ ap₂ (λ (t u : ℕ). t * 256 ^ n + u)
                (v' ∙ ap (λ (t : ℕ). v * 256 + t) (first ∙ sym here)) tail
            ∙ digit v (cached_byte view c (pa + 0)) (256 ^ n)
                (big_endian n (λ k. cached_byte view c (pa + suc k)))
            ∙ ap
                (λ (t : ℕ).
                  v * t
                  + (cached_byte view c (pa + 0) * 256 ^ n
                      + big_endian n (λ k. cached_byte view c (pa + suc k))))
                (sym power),
        ok'',
        λ a ha. same' a ha ∙ same a ha,
      )

  Size-room : (len : ℕ) → Size len → (0 + 1) * 256 ^ len ≤ 2 ^ 64
  unfolding Size
  Size-room len (inl e) = rw e (omega arith)
  Size-room len (inr (inl e)) = rw e (omega arith)
  Size-room len (inr (inr (inl e))) = rw e (omega arith)
  Size-room len (inr (inr (inr e))) = rw e (omega arith)

  -- A cached read of 1, 2, 4 or 8 bytes returns the big-endian value of the bytes that the cache presents,
  -- whether it hits, misses or crosses a block; it leaves every one of those bytes as it was, and the
  -- cache coherent. The cache is coherent, its bytes are bytes, and the state below keeps a flat memory.
  pub mem_read_flat :
      (st : CpuState) (pa len wimg a : ℕ) (c : Cache S)
      → Coherent Ok view c
      → IsBytes (cached_byte view c)
      → dce_on st ≡ true
      → has wimg wimg_i ≡ false
      → Size len
      → pa < 2 ^ 32
      → pa + len ≤ 2 ^ 32
      → a < 2 ^ 32
      → ((mem_read lo st pa len wimg c).0 ≡ big_endian len (λ k. cached_byte view c (pa + k)))
        × Coherent Ok view ((mem_read lo st pa len wimg c).1)
        × (cached_byte view ((mem_read lo st pa len wimg c).1) a ≡ cached_byte view c a)
  unfolding mem_read
  mem_read_flat st pa len wimg a c ok bytes on cached size hp top ha =
      elim (Bool-cases (ltb 32 (bit_and pa 31 + len))) [
        | inl crosses ↦
            let (v, ok', same) = read_split_flat len pa 0 c ok top (Size-room len size) bytes in
            rw (on, cached, crosses) (v ∙ omega arith, ok', same a ha)
        | inr inside ↦
            let fits : pa % 32 + len ≤ 32 =
              omega (arith, ltb→le 32 (bit_and pa 31 + len) inside, line_offset pa) in
            let (v, ok', same) = read_block_flat pa len c ok top fits hp size bytes in
            rw (on, cached, inside) (v, ok', same a ha)
      ]
