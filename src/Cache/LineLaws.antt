-- ===== src/Cache/LineLaws.antt =====
-- The dcb instructions on the data cache (dcbzLine and dcbClean of core/src/cache.cpp) against the flat
-- memory of bytes that the cache presents.
use open_power_mac.Prelude.{ℕ, ◌^◌, ◌<◌, ◌≡◌, refl, sym, ap, ◌∙◌, inl, inr, true, Option, subst}
use mathlib.Core.Bool.{true≢false}
use open_power_mac.Cache.Bytes.{Line, set_of, tv_of}
use open_power_mac.Cache.Lower.{Lower, IsBacking, put_line, put_line_cong}
use open_power_mac.Cache.Index.{
  Way, Cache, line_way, set_way, stamp, on_below, set_tv, line_victim, age_of_hit,
}
use open_power_mac.Cache.View.{Holds, Holds-lt, Coherent, cached_byte, lookup_cases}
use open_power_mac.Cache.Change.{Differs, set_way_here, set_way-Differs, Differs-trans}
use open_power_mac.Cache.Placing.{Placed, Placed-Coherent, Placed_bytes}
use open_power_mac.Cache.Victim.{Ready, line_victim-Ready}
use open_power_mac.Cache.Serve.{stamped, stamp-Differs, touched}
use open_power_mac.Cache.WriteLaws.{below_bytes, below-Coherent}
use open_power_mac.Cache.Maintain.{dcbz_hit, dcbz_line}

module _ {S : Type 0} (lo : Lower S) (Ok : S → Type 0) (view : S → ℕ → ℕ)
    (law : IsBacking lo Ok view) where
  module _ (pa : ℕ) (hp : pa < 2 ^ 32) where
    -- A way that takes zeros for the block.
    zeroed : ℕ → Cache S → Cache S
    zeroed w c = set_way (set_of pa) w (record (c.ways (set_of pa) w) { b = λ k. 0; d = true }) c

    -- The change that zeros a way, after one that gave the way the block's entry.
    zeroed-Placed :
        (w : ℕ) (c c1 : Cache S)
        → Coherent Ok view c
        → Differs (set_of pa) w c c1
        → c1.below ≡ c.below
        → (c1.ways (set_of pa) w).tv ≡ tv_of pa
        → ((a : ℕ)
            → a < 2 ^ 32
            → set_of a ≡ set_of pa
            → (c.ways (set_of pa) w).tv ≡ tv_of a
            → tv_of a ≡ tv_of pa)
        → ((v : ℕ) → Holds c pa v → v ≡ w)
        → Placed Ok view pa w c (zeroed w c1)
    unfolding zeroed set_way
    zeroed-Placed w c c1 ok differs below tag own only =
        let here =
          set_way_here (set_of pa) w (record (c1.ways (set_of pa) w) { b = λ k. 0; d = true }) c1 in
        record {
          lower = subst Ok (sym below) ok.lower;
          differs = Differs-trans (set_of pa) w c c1 _ differs (set_way-Differs (set_of pa) w _ c1);
          tag = ap (λ (x : Way). x.tv) here ∙ tag;
          same_below = λ a ha. ap (λ (s : S). view s a) below;
          own = own;
          only = only;
          fresh = λ not_dirty. absurd (true≢false (sym (ap (λ (x : Way). x.d) here) ∙ not_dirty));
        }

    zeroed_line : (w : ℕ) (c : Cache S) → ((zeroed w c).ways (set_of pa) w).b ≡ (λ k. 0)
    unfolding zeroed
    zeroed_line w c =
        ap (λ (x : Way). x.b)
          (set_way_here (set_of pa) w (record (c.ways (set_of pa) w) { b = λ k. 0; d = true }) c)

    -- The cache after a dcbz.
    record Zeroed (c c' : Cache S) : Type 0 where
      coherent : Coherent Ok view c'
      bytes :
          (a : ℕ) → a < 2 ^ 32 → cached_byte view c' a ≡ put_line pa (λ k. 0) (cached_byte view c) a

    zero_over :
        (w : ℕ) (c c1 : Cache S)
        → Coherent Ok view c
        → w < 8
        → Placed Ok view pa w c (zeroed w c1)
        → Zeroed c (zeroed w c1)
    zero_over w c c1 ok hw pl = record {
      coherent = Placed-Coherent Ok view pa w c (zeroed w c1) ok hp hw pl;
      bytes = λ a ha.
          Placed_bytes Ok view pa w c (zeroed w c1) ok hp hw pl a ha
          ∙ ap (λ (b : Line). put_line pa b (cached_byte view c) a) (zeroed_line w c1);
    }

    zero_hit :
        (w : ℕ) (c : Cache S)
        → Coherent Ok view c
        → Holds c pa w
        → Zeroed c (zeroed w (stamp (set_of pa) w c))
    unfolding stamp set_way
    zero_hit w c ok h =
        let t = touched lo Ok view law pa hp c ok w h in
        zero_over w c (stamp (set_of pa) w c) ok (Holds-lt c pa w h)
          (zeroed-Placed w c (stamp (set_of pa) w c) ok t.differs refl t.tag t.own t.only)

    zero_miss :
        (w : ℕ) (c c1 : Cache S)
        → Ready lo Ok view law (set_of pa) w c c1
        → ((v : ℕ) → ¬ Holds c pa v)
        → Zeroed c (zeroed w (stamp (set_of pa) w (set_tv (set_of pa) w (tv_of pa) c1)))
    unfolding stamp set_way set_tv
    zero_miss w c c1 re missed =
        let c2 = set_tv (set_of pa) w (tv_of pa) c1 in
        let c3 = stamp (set_of pa) w c2 in
        let z = zero_over w c1 c3 re.coherent re.way_lt (
          zeroed-Placed w c1 c3 re.coherent
            (Differs-trans (set_of pa) w c1 c2 c3 (set_way-Differs (set_of pa) w _ c1)
              (stamp-Differs (set_of pa) w c2))
            refl
            (ap (λ (x : Way). x.tv) (stamped (set_of pa) w c2)
              ∙ ap (λ (x : Way). x.tv)
                  (set_way_here (set_of pa) w (record (c1.ways (set_of pa) w) { tv = tv_of pa })
                    c1))
            (λ a ha p t. absurd (re.empty a ha t))
            (λ v h. absurd (missed v (re.no_new pa v hp h)))) in
        record {
          coherent = z.coherent;
          bytes = λ a ha. z.bytes a ha ∙ put_line_cong pa (λ k. 0) _ _ a (re.same_bytes a ha);
        }

    Zeroed-all : (c : Cache S) → Coherent Ok view c → Zeroed c (dcbz_line lo pa c)
    unfolding dcbz_line line_way dcbz_hit age_of_hit on_below zeroed
    Zeroed-all c ok =
        let s = lo.fetch_drop_at pa c.below in
        let c0 : Cache S = record c { below = s } in
        let same : (a : ℕ) → a < 2 ^ 32 → view s a ≡ view c.below a =
          λ a ha. law.drop_view pa a c.below ok.lower ha in
        let ok0 = below-Coherent lo Ok view law s c (law.drop-Ok pa c.below ok.lower) same ok in
        let z : Zeroed c0 (dcbz_line lo pa c) = elim (lookup_cases pa c0) [
          | inl (w, h, e) ↦ subst (after c0) (sym e) (zero_hit w c0 ok0 h)
          | inr (no_way, e) ↦ subst (after c0) (sym e) (
              zero_miss ((line_victim lo pa c0).0) c0 ((line_victim lo pa c0).1)
                (line_victim-Ready lo Ok view law pa c0 ok0) no_way)
        ] in
        record {
          coherent = z.coherent;
          bytes = λ a ha.
              z.bytes a ha
              ∙ put_line_cong pa (λ k. 0) _ _ a (below_bytes lo Ok view law s c a (same a ha));
        }
      where
        after : Cache S → Option ℕ → Type 0
        after c0 r = Zeroed c0 (
            zeroed ((dcbz_hit lo pa r (age_of_hit pa r c0)).0)
              ((dcbz_hit lo pa r (age_of_hit pa r c0)).1))

  -- A dcbz zeros the 32 bytes of its block and changes no other byte that the cache presents, whether the
  -- block was there or not, and leaves the cache coherent. The cache is coherent and the state below keeps
  -- a flat memory.
  pub dcbz_line_flat :
      (pa a : ℕ) (c : Cache S)
      → Coherent Ok view c
      → pa < 2 ^ 32
      → a < 2 ^ 32
      → Coherent Ok view (dcbz_line lo pa c)
        × (cached_byte view (dcbz_line lo pa c) a ≡ put_line pa (λ k. 0) (cached_byte view c) a)
  dcbz_line_flat pa a c ok hp ha = let z = Zeroed-all pa hp c ok in (z.coherent, z.bytes a ha)
