-- ===== src/Cache/WriteLaws.antt =====
-- Writes through the data cache (memWrite of core/src/cache.cpp) against the flat memory of bytes that
-- the cache presents.
use open_power_mac.Prelude.{
  ℕ, zero, suc, ◌+◌, ◌-◌, ◌*◌, ◌%◌, ◌^◌, ◌≤◌, ◌<◌, ◌≡◌, ◌⊎◌, refl, sym, ap, ap₂, ◌∙◌, inl, inr,
  true, false, Option, none, some, bit_and, arith, ◌>>>◌, ltb, has, u8, u32, Bool-cases, ltb→le,
  dec_lt, dec_eq, bit_xor, not32, ◌!=◌, sub32,
}
use native.Mathlib.Nat.{mod-eq_of_lt}
use open_power_mac.Prelude.BitLaws.{bit_and_low}
use open_power_mac.Cpu.{CpuState}
use open_power_mac.Cache.Bytes.{wimg_i, wimg_w}
use open_power_mac.Cache.Lower.{Lower, IsBacking}
use open_power_mac.Cache.Places.{line_offset}
use open_power_mac.Cache.Index.{Cache, on_below, line_way_quiet}
use open_power_mac.Cache.View.{Coherent, cached_byte, byte_in, Holds}
use open_power_mac.Cache.StoredBytes.{Size}
use open_power_mac.Cache.StoreLaws.{
  put_bytes, put_bytes_in, put_bytes_out, put_bytes_cong, written_or_not, write_back_flat,
}
use open_power_mac.Cache.Data.{dce_on, write_block, write_split, fetch_drop_range, mem_write}

-- The first byte of a value and then the others.
put_bytes_first :
    (n pa v : ℕ) (f : ℕ → ℕ) (a : ℕ)
    → put_bytes n (suc pa) v (put_bytes 1 pa (u8 (v >>> (8 * n))) f) a ≡ put_bytes (suc n) pa v f a
put_bytes_first n pa v f a = elim (written_or_not (suc n) pa a) [
  | inr out ↦
      put_bytes_out n (suc pa) v _ a
        (elim out [ inl l ↦ inl (omega arith) | inr l ↦ inr (omega arith) ])
      ∙ put_bytes_out 1 pa _ f a
          (elim out [ inl l ↦ inl (omega arith) | inr l ↦ inr (omega arith) ])
      ∙ sym (put_bytes_out (suc n) pa v f a out)
  | inl (low, near) ↦ elim (dec_eq a pa) [
    | yes e ↦
        let gap : suc n - 1 - (a - pa) ≡ n = omega arith in
        put_bytes_out n (suc pa) v _ a (inl (omega arith))
        ∙ put_bytes_in 1 pa (u8 (v >>> (8 * n))) f a low (omega arith)
        ∙ last_byte (v >>> (8 * n)) (a - pa)
        ∙ ap (λ (t : ℕ). u8 (v >>> (8 * t))) (sym gap)
        ∙ sym (put_bytes_in (suc n) pa v f a low near)
    | no ne ↦
        let gap : n - 1 - (a - suc pa) ≡ suc n - 1 - (a - pa) = omega arith in
        put_bytes_in n (suc pa) v _ a (omega arith) (omega arith)
        ∙ ap (λ (t : ℕ). u8 (v >>> (8 * t))) gap
        ∙ sym (put_bytes_in (suc n) pa v f a low near)
  ]
]
  where
    last_byte : (x d : ℕ) → u8 (u8 x >>> (8 * (1 - 1 - d))) ≡ u8 x
    last_byte x d = let index : 1 - 1 - d ≡ 0 = omega arith in rw index (omega arith)

module _ {S : Type 0} (lo : Lower S) (Ok : S → Type 0) (view : S → ℕ → ℕ)
    (law : IsBacking lo Ok view) where
  -- A change below that keeps the flat memory there.
  pub below_bytes :
      (s : S) (c : Cache S) (a : ℕ)
      → view s a ≡ view c.below a
      → cached_byte view (record c { below = s }) a ≡ cached_byte view c a
  unfolding cached_byte line_way_quiet byte_in
  below_bytes s c a e = by_search (line_way_quiet a c)
    where
      by_search : (r : Option ℕ) → byte_in view (record c { below = s }) a r ≡ byte_in view c a r
      by_search none = e
      by_search (some w) = refl

  pub below-Coherent :
      (s : S) (c : Cache S)
      → Ok s
      → ((a : ℕ) → a < 2 ^ 32 → view s a ≡ view c.below a)
      → Coherent Ok view c
      → Coherent Ok view (record c { below = s })
  unfolding Holds
  below-Coherent s c hs same ok = record {
    lower = hs;
    unique = ok.unique;
    known = ok.known;
    clean = λ a w ha h not_dirty. ok.clean a w ha h not_dirty ∙ sym (same a ha);
  }

  drop_range :
      (pa len : ℕ) (s : S)
      → Ok s
      → Ok (fetch_drop_range lo pa len s)
        × ((a : ℕ) → a < 2 ^ 32 → view (fetch_drop_range lo pa len s) a ≡ view s a)
  unfolding fetch_drop_range
  drop_range pa len s ok =
      elim (Bool-cases (bit_and (bit_xor pa (sub32 (u32 (pa + len)) 1)) (not32 31) != 0)) [
        | inl t ↦ rw t (
          law.drop-Ok _ _ (law.drop-Ok pa s ok),
          λ a ha. law.drop_view _ a _ (law.drop-Ok pa s ok) ha ∙ law.drop_view pa a s ok ha,
        )
        | inr f ↦ rw f (law.drop-Ok pa s ok, λ a ha. law.drop_view pa a s ok ha)
      ]

  drop_in_cache :
      (pa len : ℕ) (c : Cache S)
      → Coherent Ok view c
      → Coherent Ok view (on_below (fetch_drop_range lo pa len) c)
        × ((a : ℕ)
            → a < 2 ^ 32
            → cached_byte view (on_below (fetch_drop_range lo pa len) c) a ≡ cached_byte view c a)
  unfolding on_below
  drop_in_cache pa len c ok =
      let (hs, same) = drop_range pa len c.below ok.lower in
      (below-Coherent _ c hs same ok, λ a ha. below_bytes _ c a (same a ha))

  -- What a write has done.
  record Wrote (len pa v : ℕ) (c c' : Cache S) : Type 0 where
    coherent : Coherent Ok view c'
    bytes : (a : ℕ) → a < 2 ^ 32 → cached_byte view c' a ≡ put_bytes len pa v (cached_byte view c) a

  write_block_flat :
      (pa len v wimg : ℕ) (c : Cache S)
      → Coherent Ok view c
      → has wimg wimg_w ≡ false
      → pa < 2 ^ 32
      → pa % 32 + len ≤ 32
      → Size len
      → v < 2 ^ 64
      → Wrote len pa v c (write_block lo pa len v wimg c)
  unfolding write_block
  write_block_flat pa len v wimg c ok back hp inside sz hv =
      let (ok', bytes) = write_back_flat lo Ok view law pa len v 0 c ok hp inside sz hv in
      rw back (record { coherent = ok'; bytes = bytes })

  write_split_flat :
      (n pa v wimg : ℕ) (c : Cache S)
      → Coherent Ok view c
      → has wimg wimg_w ≡ false
      → pa + n ≤ 2 ^ 32
      → Wrote n pa v c (write_split lo n pa v wimg c)
  unfolding write_split Size
  write_split_flat zero pa v wimg c ok back top = record {
    coherent = ok;
    bytes = λ a ha. sym (put_bytes_out 0 pa v (cached_byte view c) a (zero_bytes pa a));
  }
    where
      zero_bytes : (pa a : ℕ) → (a < pa) ⊎ (pa + 0 ≤ a)
      zero_bytes pa a = elim (dec_lt a pa) [ yes low ↦ inl low | no high ↦ inr (omega arith) ]
  write_split_flat (suc n) pa v wimg c ok back top =
      let same_pa : u32 pa ≡ pa = mod-eq_of_lt (omega arith) in
      let x = bit_and (v >>> (8 * n)) 0xff in
      let byte : x ≡ u8 (v >>> (8 * n)) = bit_and_low 8 (v >>> (8 * n)) in
      let (ok1, same1) = drop_in_cache (u32 pa) 1 c ok in
      let first =
        write_block_flat (u32 pa) 1 x wimg _ ok1 back (omega arith) (omega arith) (inl refl)
          (omega arith) in
      let rest = write_split_flat n (suc pa) v wimg _ first.coherent back (omega arith) in
      record {
        coherent = rest.coherent;
        bytes = λ a ha.
            rest.bytes a ha
            ∙ put_bytes_cong n (suc pa) v _ _ a (
                first.bytes a ha
                ∙ put_bytes_cong 1 (u32 pa) x _ (cached_byte view c) a (same1 a ha)
                ∙ ap₂ (λ (p y : ℕ). put_bytes 1 p y (cached_byte view c) a) same_pa byte)
            ∙ put_bytes_first n pa v (cached_byte view c) a;
      }

  -- A cached write of 1, 2, 4 or 8 bytes to a page that is not write-through replaces exactly these bytes
  -- of what the cache presents by those of the value, the highest first, whether it hits, misses or
  -- crosses a block, and leaves the cache coherent. The cache is coherent and the state below keeps a
  -- flat memory.
  pub mem_write_flat :
      (st : CpuState) (pa len v wimg a : ℕ) (c : Cache S)
      → Coherent Ok view c
      → dce_on st ≡ true
      → has wimg wimg_i ≡ false
      → has wimg wimg_w ≡ false
      → Size len
      → pa < 2 ^ 32
      → pa + len ≤ 2 ^ 32
      → v < 2 ^ 64
      → a < 2 ^ 32
      → Coherent Ok view (mem_write lo st pa len v wimg c)
        × (cached_byte view (mem_write lo st pa len v wimg c) a
            ≡ put_bytes len pa v (cached_byte view c) a)
  unfolding mem_write
  mem_write_flat st pa len v wimg a c ok on cached back sz hp top hv ha =
      let (ok1, same1) = drop_in_cache pa len c ok in
      elim (Bool-cases (ltb 32 (bit_and pa 31 + len))) [
        | inl crosses ↦
            let out = write_split_flat len pa v wimg _ ok1 back top in
            rw (on, cached, crosses)
              (out.coherent, out.bytes a ha ∙ put_bytes_cong len pa v _ _ a (same1 a ha))
        | inr inside ↦
            let fits : pa % 32 + len ≤ 32 =
              omega (arith, ltb→le 32 (bit_and pa 31 + len) inside, line_offset pa) in
            let out = write_block_flat pa len v wimg _ ok1 back hp fits sz hv in
            rw (on, cached, inside)
              (out.coherent, out.bytes a ha ∙ put_bytes_cong len pa v _ _ a (same1 a ha))
      ]
