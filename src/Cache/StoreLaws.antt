-- ===== src/Cache/StoreLaws.antt =====
-- A store into a line of the data cache (lineStoreBE and the write-back path of memWrite,
-- core/src/cache.cpp) against the bytes that the cache presents.
use open_power_mac.Prelude.{
  ℕ, ◌+◌, ◌-◌, ◌*◌, ◌%◌, ◌^◌, ◌≤◌, ◌<◌, ◌≡◌, ◌≢◌, ◌⊎◌, refl, sym, ap, ◌∙◌, inl, inr, true, false,
  bit_and, arith, if◌then◌else◌, ◌>>>◌, ltb, u8, Bool-cases, ltb→le, lt→ltb, le→ltb, dec_lt, dec_eq,
  eq→==, ==_ne,
}
use mathlib.Core.Bool.{true≢false}
use open_power_mac.Cache.Bytes.{Line, set_of, from_offset, at_offset, line_store_be}
use open_power_mac.Cache.Lower.{Lower, IsBacking, put_line}
use open_power_mac.Cache.Places.{line_offset, same_block_place}
use open_power_mac.Cache.Index.{Way, Cache, line_way, set_way, set_dirty}
use open_power_mac.Cache.View.{Holds, Coherent, cached_byte, cached_byte_hit}
use open_power_mac.Cache.Change.{set_way_here, set_way-Differs, Differs-trans}
use open_power_mac.Cache.Placing.{Placed, Placed-Coherent, Placed_bytes}
use open_power_mac.Cache.Serve.{Holds-block, served}
use open_power_mac.Cache.StoredBytes.{Size, line_store_be_lem}
use open_power_mac.Cache.Data.{hit_or_fill, store_way, write_back}

-- The bytes f with len bytes of a value at an address, the highest first.
unfoldable pub put_bytes : ℕ → ℕ → ℕ → (ℕ → ℕ) → ℕ → ℕ
put_bytes len pa v f a =
    if ltb a pa
    then f a
    else if ltb (a - pa) len
    then u8 (v >>> (8 * (len - 1 - (a - pa))))
    else f a

pub put_bytes_in :
    (len pa v : ℕ) (f : ℕ → ℕ) (a : ℕ)
    → pa ≤ a
    → a - pa < len
    → put_bytes len pa v f a ≡ u8 (v >>> (8 * (len - 1 - (a - pa))))
unfolding put_bytes
put_bytes_in len pa v f a low high = rw (le→ltb a pa low, lt→ltb (a - pa) len high) refl

pub put_bytes_out :
    (len pa v : ℕ) (f : ℕ → ℕ) (a : ℕ) → (a < pa) ⊎ (pa + len ≤ a) → put_bytes len pa v f a ≡ f a
unfolding put_bytes
put_bytes_out len pa v f a (inl low) = rw (lt→ltb a pa low) refl
put_bytes_out len pa v f a (inr high) =
    let before : ltb a pa ≡ false = le→ltb a pa (omega arith) in
    let after : ltb (a - pa) len ≡ false = le→ltb (a - pa) len (omega arith) in
    rw (before, after) refl

pub put_bytes_cong :
    (len pa v : ℕ) (f g : ℕ → ℕ) (a : ℕ)
    → f a ≡ g a
    → put_bytes len pa v f a ≡ put_bytes len pa v g a
unfolding put_bytes
put_bytes_cong len pa v f g a e =
    ap
      (λ (t : ℕ).
        if ltb a pa
        then t
        else if ltb (a - pa) len
        then u8 (v >>> (8 * (len - 1 - (a - pa))))
        else t)
      e

-- An address is one of those written, or not.
pub written_or_not : (len pa a : ℕ) → ((pa ≤ a) × (a - pa < len)) ⊎ ((a < pa) ⊎ (pa + len ≤ a))
written_or_not len pa a = elim (dec_lt a pa) [
  | yes low ↦ inr (inl low)
  | no high ↦ elim (dec_lt (a - pa) len) [
    | yes near ↦ inl (omega arith, near)
    | no far ↦ inr (inr (omega arith))
  ]
]

-- What a store leaves in a line.
stored_line :
    (o len v j : ℕ) (b : Line)
    → Size len
    → v < 2 ^ 64
    → at_offset o (λ p. line_store_be p len v) b j ≡ put_bytes len o v b j
unfolding at_offset from_offset put_bytes
stored_line o len v j b size hv = elim (Bool-cases (ltb j o)) [
  | inl low ↦ rw low refl
  | inr high ↦
      let back : o + (j - o) ≡ j = omega (arith, ltb→le j o high) in
      rw high (
        line_store_be_lem (λ k. b (o + k)) len v (j - o) size hv
        ∙ ap (λ (t : ℕ). if ltb (j - o) len then u8 (v >>> (8 * (len - 1 - (j - o)))) else b t)
            back)
]

module _ {S : Type 0} (lo : Lower S) (Ok : S → Type 0) (view : S → ℕ → ℕ)
    (law : IsBacking lo Ok view) where
  module _ (pa len v : ℕ) (hp : pa < 2 ^ 32) (sz : Size len) (hv : v < 2 ^ 64) where
    -- The block after the store, of the block before.
    in_block :
        (b : Line) (f : ℕ → ℕ) (a : ℕ)
        → pa % 32 + len ≤ 32
        → (a >>> 5) ≡ (pa >>> 5)
        → b (bit_and a 31) ≡ f a
        → put_bytes len (bit_and pa 31) v b (bit_and a 31) ≡ put_bytes len pa v f a
    in_block b f a inside same e =
        let x = line_offset a in
        let y = line_offset pa in
        elim (written_or_not len pa a) [
          | inl (low, near) ↦
              let gap : bit_and a 31 - bit_and pa 31 ≡ a - pa = omega arith in
              put_bytes_in len (bit_and pa 31) v b (bit_and a 31) (omega arith) (omega arith)
              ∙ ap (λ (t : ℕ). u8 (v >>> (8 * (len - 1 - t)))) gap
              ∙ sym (put_bytes_in len pa v f a low near)
          | inr out ↦
              put_bytes_out len (bit_and pa 31) v b (bit_and a 31)
                (elim out [ inl l ↦ inl (omega arith) | inr l ↦ inr (omega arith) ])
              ∙ e
              ∙ sym (put_bytes_out len pa v f a out)
        ]

    line_bytes :
        (b : Line) (f : ℕ → ℕ) (a : ℕ)
        → pa % 32 + len ≤ 32
        → ((a >>> 5) ≡ (pa >>> 5) → b (bit_and a 31) ≡ f a)
        → put_line pa (at_offset (bit_and pa 31) (λ p. line_store_be p len v) b) f a
          ≡ put_bytes len pa v f a
    unfolding put_line
    line_bytes b f a inside e = elim (dec_eq (a >>> 5) (pa >>> 5)) [
      | yes same ↦ rw (eq→== (a >>> 5) (pa >>> 5) same) (
          stored_line (bit_and pa 31) len v (bit_and a 31) b sz hv
          ∙ in_block b f a inside same (e same))
      | no other ↦
          rw (==_ne (a >>> 5) (pa >>> 5) other) (sym (put_bytes_out len pa v f a (outside other)))
    ]
      where
        outside : (a >>> 5) ≢ (pa >>> 5) → (a < pa) ⊎ (pa + len ≤ a)
        outside other = elim (dec_lt a pa) [
          | yes low ↦ inl low
          | no high ↦ inr (elim (dec_lt a (pa + len)) [
            | yes near ↦ absurd (other (omega arith))
            | no far ↦ omega arith
          ])
        ]

  module _ (pa w len v : ℕ) (c : Cache S) (hp : pa < 2 ^ 32) (sz : Size len) (hv : v < 2 ^ 64)
      (ok : Coherent Ok view c) (hw : w < 8) (h : Holds c pa w) where
    abbrev after_store : Cache S
    after_store = set_dirty (set_of pa) w true (store_way lo pa len v w c)

    stored_way : (after_store.ways (set_of pa) w) ≡ record (c.ways (set_of pa) w) {
      b = at_offset (bit_and pa 31) (λ p. line_store_be p len v) (c.ways (set_of pa) w).b;
      d = true;
    }
    unfolding set_dirty store_way
    stored_way =
        set_way_here (set_of pa) w _ (store_way lo pa len v w c)
        ∙ ap (λ (x : Way). record x { d = true }) (set_way_here (set_of pa) w _ c)

    store_Placed : Placed Ok view pa w c after_store
    unfolding set_dirty store_way set_way Holds
    store_Placed = record {
      lower = ok.lower;
      differs =
          Differs-trans (set_of pa) w c (store_way lo pa len v w c) after_store
            (set_way-Differs (set_of pa) w _ c)
            (set_way-Differs (set_of pa) w _ (store_way lo pa len v w c));
      tag = ap (λ (x : Way). x.tv) stored_way ∙ h.1;
      same_below = λ a ha. refl;
      own = λ a ha p t. sym t ∙ h.1;
      only = λ u k. ok.unique pa u w hp k h;
      fresh = λ not_dirty. absurd (true≢false (sym (ap (λ (x : Way). x.d) stored_way) ∙ not_dirty));
    }

    pub store_bytes :
        (a : ℕ)
        → a < 2 ^ 32
        → pa % 32 + len ≤ 32
        → cached_byte view after_store a ≡ put_bytes len pa v (cached_byte view c) a
    store_bytes a ha inside =
        Placed_bytes Ok view pa w c after_store ok hp hw store_Placed a ha
        ∙ ap (λ (x : Way). put_line pa x.b (cached_byte view c) a) stored_way
        ∙ line_bytes pa len v hp sz hv (c.ways (set_of pa) w).b (cached_byte view c) a inside
            (λ same.
              ap (λ (s : ℕ). (c.ways s w).b (bit_and a 31))
                (sym (same_block_place a pa ha hp same).0)
              ∙ sym (cached_byte_hit Ok view a w c ha ok (Holds-block pa a w c hp ha (sym same) h)))

  -- A write within a block.
  pub write_back_flat :
      (pa len v a : ℕ) (c : Cache S)
      → Coherent Ok view c
      → pa < 2 ^ 32
      → pa % 32 + len ≤ 32
      → Size len
      → v < 2 ^ 64
      → Coherent Ok view (write_back lo pa len v c)
        × ((a : ℕ)
            → a < 2 ^ 32
            → cached_byte view (write_back lo pa len v c) a
              ≡ put_bytes len pa v (cached_byte view c) a)
  unfolding write_back
  write_back_flat pa len v a c ok hp inside sz hv =
      let r = hit_or_fill lo pa ((line_way pa c).0) ((line_way pa c).1) in
      let sv = served lo Ok view law pa hp c ok in
      (
        Placed-Coherent Ok view pa (r.0) (r.1) _ sv.coherent hp sv.way_lt
            (store_Placed pa (r.0) len v (r.1) hp sz hv sv.coherent sv.way_lt sv.holds),
        λ a ha.
            store_bytes pa (r.0) len v (r.1) hp sz hv sv.coherent sv.way_lt sv.holds a ha inside
            ∙ put_bytes_cong len pa v (cached_byte view (r.1)) (cached_byte view c) a
                (sv.same_bytes a ha),
      )
