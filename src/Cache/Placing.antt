-- ===== src/Cache/Placing.antt =====
-- How a way of the data cache that takes a block, or new bytes of it (core/src/cache.cpp), shows in the
-- bytes that the cache presents.
use open_power_mac.Prelude.{
  ℕ, ◌^◌, ◌<◌, ◌≡◌, ◌≢◌, sym, ap, ◌∙◌, ◌⊎◌, inl, inr, Bool, false, bit_and, arith, if◌then◌else◌,
  ◌>>>◌, dec_eq, eq→==, ==_ne,
}
use open_power_mac.Cache.Bytes.{set_of, tv_of}
use open_power_mac.Cache.Lower.{put_line}
use open_power_mac.Cache.Places.{same_block_place, place_same_block, tv_of_value}
use open_power_mac.Cache.Index.{Way, Cache}
use open_power_mac.Cache.View.{
  Holds, Coherent, cached_byte, lookup_cases, cached_byte_hit, cached_byte_miss,
}
use open_power_mac.Cache.Change.{Differs, still-Holds, still_known}

module _ {S : Type 0} (Ok : S → Type 0) (view : S → ℕ → ℕ) where
  -- A way takes the block of an address, or new bytes of it, and nothing changes below.
  pub record Placed (pa w : ℕ) (c c' : Cache S) : Type 0 where
    pub lower : Ok c'.below
    pub differs : Differs (set_of pa) w c c'
    pub tag : (c'.ways (set_of pa) w).tv ≡ tv_of pa
    pub same_below : (a : ℕ) → a < 2 ^ 32 → view c'.below a ≡ view c.below a
    -- The way held nothing, or this block; no other way held it.
    pub own :
        (a : ℕ)
        → a < 2 ^ 32
        → set_of a ≡ set_of pa
        → (c.ways (set_of pa) w).tv ≡ tv_of a
        → tv_of a ≡ tv_of pa
    pub only : (v : ℕ) → Holds c pa v → v ≡ w
    pub fresh :
        (c'.ways (set_of pa) w).d ≡ false
        → (a : ℕ) → a < 2 ^ 32
        → (a >>> 5) ≡ (pa >>> 5)
        → (c'.ways (set_of pa) w).b (bit_and a 31) ≡ view c.below a

  module _ (pa w : ℕ) (c c' : Cache S) (ok : Coherent Ok view c) (hp : pa < 2 ^ 32) (hw : w < 8)
      (pl : Placed pa w c c') where
    placed_here :
        (a v : ℕ)
        → a < 2 ^ 32
        → Holds c' a v
        → ((v ≡ w) × ((a >>> 5) ≡ (pa >>> 5)))
          ⊎ (Holds c a v × (c'.ways (set_of a) v ≡ c.ways (set_of a) v))
    unfolding Differs Holds
    placed_here a v ha (low, tag) = elim (pl.differs (set_of a) v) [
      | inl (p, q) ↦
          let t : tv_of a ≡ tv_of pa =
            sym tag
            ∙ ap (λ (t : ℕ). (c'.ways t v).tv) p
            ∙ ap (λ (t : ℕ). (c'.ways (set_of pa) t).tv) q
            ∙ pl.tag in
          inl (q, place_same_block a pa ha hp p t)
      | inr e ↦ inr ((low, ap (λ (x : Way). x.tv) (sym e) ∙ tag), e)
    ]

    -- A way that held the block before.
    held_block : (a v : ℕ) → a < 2 ^ 32 → (a >>> 5) ≡ (pa >>> 5) → Holds c a v → v ≡ w
    unfolding Holds
    held_block a v ha same (low, tag) =
        let (p, t) = same_block_place a pa ha hp same in
        pl.only v (low, ap (λ (s : ℕ). (c.ways s v).tv) (sym p) ∙ tag ∙ t)

    pub now-Holds : (a : ℕ) → a < 2 ^ 32 → (a >>> 5) ≡ (pa >>> 5) → Holds c' a w
    unfolding Holds
    now-Holds a ha same =
        let (p, t) = same_block_place a pa ha hp same in
        (hw, ap (λ (s : ℕ). (c'.ways s w).tv) p ∙ pl.tag ∙ sym t)

    one_way : (a u v : ℕ) → a < 2 ^ 32 → Holds c' a u → Holds c' a v → u ≡ v
    one_way a u v ha h k = elim (placed_here a u ha h) [
      | inl (p, same) ↦ elim (placed_here a v ha k) [
        | inl (q, _) ↦ p ∙ sym q
        | inr (before, _) ↦ p ∙ sym (held_block a v ha same before)
      ]
      | inr (before, _) ↦ elim (placed_here a v ha k) [
        | inl (q, same) ↦ held_block a u ha same before ∙ sym q
        | inr (before', _) ↦ ok.unique a u v ha before before'
      ]
    ]

    still_clean :
        (a v : ℕ)
        → a < 2 ^ 32
        → Holds c' a v
        → (c'.ways (set_of a) v).d ≡ false
        → (c'.ways (set_of a) v).b (bit_and a 31) ≡ view c'.below a
    still_clean a v ha h not_dirty = elim (placed_here a v ha h) [
      | inl (q, same) ↦
          let here : c'.ways (set_of a) v ≡ c'.ways (set_of pa) w =
            ap (λ (t : ℕ). c'.ways t v) (same_block_place a pa ha hp same).0
            ∙ ap (c'.ways (set_of pa)) q in
          ap (λ (x : Way). x.b (bit_and a 31)) here
          ∙ pl.fresh (ap (λ (x : Way). x.d) (sym here) ∙ not_dirty) a ha same
          ∙ sym (pl.same_below a ha)
      | inr (before, e) ↦
          ap (λ (x : Way). x.b (bit_and a 31)) e
          ∙ ok.clean a v ha before (ap (λ (x : Way). x.d) (sym e) ∙ not_dirty)
          ∙ sym (pl.same_below a ha)
    ]

    pub Placed-Coherent : Coherent Ok view c'
    Placed-Coherent = record {
      lower = pl.lower;
      unique = λ a u v ha h k. one_way a u v ha h k;
      known =
          still_known Ok view (set_of pa) w c c' ok pl.differs
            (omega (arith, pl.tag, tv_of_value pa hp));
      clean = λ a v ha h not_dirty. still_clean a v ha h not_dirty;
    }

    elsewhere :
        (a : ℕ) → a < 2 ^ 32 → (a >>> 5) ≢ (pa >>> 5) → cached_byte view c' a ≡ cached_byte view c a
    unfolding Differs Holds
    elsewhere a ha other = elim (lookup_cases a c) [
      | inr (no_way, e) ↦
          cached_byte_miss Ok view a c' (λ u h. elim (placed_here a u ha h) [
            | inl (_, same) ↦ other same
            | inr (before, _) ↦ no_way u before
          ])
          ∙ pl.same_below a ha
          ∙ sym (cached_byte_miss Ok view a c no_way)
      | inl (v, h, e) ↦ elim (pl.differs (set_of a) v) [
        | inr kept ↦
            cached_byte_hit Ok view a v c' ha Placed-Coherent (still-Holds a v c c' kept h)
            ∙ ap (λ (x : Way). x.b (bit_and a 31)) kept
            ∙ sym (cached_byte_hit Ok view a v c ha ok h)
        | inl (p, q) ↦
            let before : (c.ways (set_of pa) w).tv ≡ tv_of a =
              ap (λ (t : ℕ). (c.ways (set_of pa) t).tv) (sym q)
              ∙ ap (λ (t : ℕ). (c.ways t v).tv) (sym p)
              ∙ h.1 in
            absurd (other (place_same_block a pa ha hp p (pl.own a ha p before)))
      ]
    ]

    -- The block reads as the line of the way, and every other byte as before.
    pub Placed_bytes :
        (a : ℕ)
        → a < 2 ^ 32
        → cached_byte view c' a ≡ put_line pa ((c'.ways (set_of pa) w).b) (cached_byte view c) a
    unfolding put_line
    Placed_bytes a ha = elim (dec_eq (a >>> 5) (pa >>> 5)) [
      | yes same ↦
          cached_byte_hit Ok view a w c' ha Placed-Coherent (now-Holds a ha same)
          ∙ ap (λ (t : ℕ). (c'.ways t w).b (bit_and a 31)) (same_block_place a pa ha hp same).0
          ∙ sym (
              ap
                (λ (t : Bool).
                  if t then (c'.ways (set_of pa) w).b (bit_and a 31) else cached_byte view c a)
                (eq→== (a >>> 5) (pa >>> 5) same))
      | no other ↦
          elsewhere a ha other
          ∙ sym (
              ap
                (λ (t : Bool).
                  if t then (c'.ways (set_of pa) w).b (bit_and a 31) else cached_byte view c a)
                (==_ne (a >>> 5) (pa >>> 5) other))
    ]
