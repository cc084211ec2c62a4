-- ===== src/Cache/Serve.antt =====
-- An access that needs its block in the data cache (lineWay and the miss path of core/src/cache.cpp):
-- afterwards a way holds the block and the cache presents the same bytes.
use open_power_mac.Prelude.{
  ℕ, ◌+◌, ◌^◌, ◌<◌, ◌≡◌, refl, sym, ap, ◌∙◌, inl, inr, Bool, false, Option, bit_and, arith,
  if◌then◌else◌, ◌>>>◌, dec_eq, eq→==, ==_ne, u32, not32, subst,
}
use open_power_mac.Cache.Bytes.{Line, set_of, tv_of}
use open_power_mac.Cache.Lower.{Lower, IsBacking, put_line}
use open_power_mac.Cache.Places.{line_base, line_base-lt, same_block_place}
use open_power_mac.Cache.Index.{
  Way, Cache, set_way, stamp, line_way, line_fill, line_victim, age_of_hit,
}
use open_power_mac.Cache.View.{
  Holds, Holds-lt, Coherent, cached_byte, lookup_cases, cached_byte_hit, cached_byte_miss,
}
use open_power_mac.Cache.Change.{
  Differs, set_way_here, set_way-Differs, set_way-Differs_after, Differs-trans,
}
use open_power_mac.Cache.Placing.{Placed, Placed-Coherent, Placed_bytes, now-Holds}
use open_power_mac.Cache.Victim.{Ready, line_victim-Ready}
use open_power_mac.Cache.Data.{allocate, hit_or_fill}

pub put_line_same :
    (pa : ℕ) (b : Line) (f : ℕ → ℕ) (a : ℕ)
    → ((a >>> 5) ≡ (pa >>> 5) → b (bit_and a 31) ≡ f a)
    → put_line pa b f a ≡ f a
unfolding put_line
put_line_same pa b f a h = elim (dec_eq (a >>> 5) (pa >>> 5)) [
  | yes e ↦
      ap (λ (t : Bool). if t then b (bit_and a 31) else f a) (eq→== (a >>> 5) (pa >>> 5) e) ∙ h e
  | no ne ↦ ap (λ (t : Bool). if t then b (bit_and a 31) else f a) (==_ne (a >>> 5) (pa >>> 5) ne)
]

module _ {S : Type 0} where
  -- The ways that hold an address hold its block.
  pub Holds-block :
      (a pa v : ℕ) (c : Cache S)
      → a < 2 ^ 32
      → pa < 2 ^ 32
      → (a >>> 5) ≡ (pa >>> 5)
      → Holds c a v
      → Holds c pa v
  unfolding Holds
  Holds-block a pa v c ha hp same (low, tag) =
      let (p, t) = same_block_place a pa ha hp same in
      (low, ap (λ (s : ℕ). (c.ways s v).tv) (sym p) ∙ tag ∙ t)

  pub stamped :
      (set w : ℕ) (c : Cache S)
      → (stamp set w c).ways set w ≡ record (c.ways set w) { age = u32 (c.clock + 1) }
  unfolding stamp
  stamped set w c = set_way_here set w (record (c.ways set w) { age = u32 (c.clock + 1) }) c

  pub stamp-Differs : (set w : ℕ) (c : Cache S) → Differs set w c (stamp set w c)
  unfolding stamp Differs
  stamp-Differs set w c =
      set_way-Differs set w (record (c.ways set w) { age = u32 (c.clock + 1) }) c

module _ {S : Type 0} (lo : Lower S) (Ok : S → Type 0) (view : S → ℕ → ℕ)
    (law : IsBacking lo Ok view) where
  -- The cache once a way holds the block of an address.
  pub record Serves (pa w : ℕ) (c c' : Cache S) : Type 0 where
    pub way_lt : w < 8
    pub coherent : Coherent Ok view c'
    pub same_bytes : (a : ℕ) → a < 2 ^ 32 → cached_byte view c' a ≡ cached_byte view c a
    pub holds : Holds c' pa w

  module _ (pa : ℕ) (hp : pa < 2 ^ 32) (c : Cache S) (ok : Coherent Ok view c) where
    pub touched : (w : ℕ) → Holds c pa w → Placed Ok view pa w c (stamp (set_of pa) w c)
    unfolding Holds stamp set_way
    touched w (low, tag) =
        let e = stamped (set_of pa) w c in
        record {
          lower = ok.lower;
          differs = stamp-Differs (set_of pa) w c;
          tag = ap (λ (x : Way). x.tv) e ∙ tag;
          same_below = λ a ha. refl;
          own = λ a ha p t. sym t ∙ tag;
          only = λ v h. ok.unique pa v w hp h (low, tag);
          fresh = λ not_dirty a ha same.
              let (p, t) = same_block_place a pa ha hp same in
              let there : c.ways (set_of a) w ≡ c.ways (set_of pa) w =
                ap (λ (s : ℕ). c.ways s w) p in
              ap (λ (x : Way). x.b (bit_and a 31)) (e)
              ∙ ap (λ (x : Way). x.b (bit_and a 31)) (sym there)
              ∙ ok.clean a w ha (low, ap (λ (x : Way). x.tv) there ∙ tag ∙ sym t)
                  (ap (λ (x : Way). x.d) there ∙ ap (λ (x : Way). x.d) (sym e) ∙ not_dirty);
        }

    pub Serves-hit : (w : ℕ) → Holds c pa w → Serves pa w c (stamp (set_of pa) w c)
    Serves-hit w h =
        let pl = touched w h in
        record {
          way_lt = (Holds-lt c pa w h);
          coherent = Placed-Coherent Ok view pa w c _ ok hp (Holds-lt c pa w h) pl;
          same_bytes = λ a ha.
              Placed_bytes Ok view pa w c _ ok hp (Holds-lt c pa w h) pl a ha
              ∙ put_line_same pa _ (cached_byte view c) a (λ same.
                ap (λ (x : Way). x.b (bit_and a 31)) (stamped (set_of pa) w c)
                ∙ ap (λ (s : ℕ). (c.ways s w).b (bit_and a 31))
                    (sym (same_block_place a pa ha hp same).0)
                ∙ sym (
                    cached_byte_hit Ok view a w c ha ok (Holds-block pa a w c hp ha (sym same) h)));
          holds = now-Holds Ok view pa w c _ ok hp (Holds-lt c pa w h) pl pa hp refl;
        }

    -- A fill of an empty way, with its age.
    module _ (w : ℕ) (c1 : Cache S) (re : Ready lo Ok view law (set_of pa) w c c1)
        (missed : (v : ℕ) → ¬ Holds c pa v) where
      missed_now : (a v : ℕ) → a < 2 ^ 32 → (a >>> 5) ≡ (pa >>> 5) → ¬ Holds c1 a v
      missed_now a v ha same h = missed v (re.no_new pa v hp (Holds-block a pa v c1 ha hp same h))

      abbrev after_fill : Cache S
      after_fill = stamp (set_of pa) w (line_fill lo (set_of pa) w pa c1)

      filled_way : after_fill.ways (set_of pa) w ≡ record {
        tv = tv_of pa;
        age = u32 (c1.clock + 1);
        b = (lo.reload (bit_and pa (not32 31)) c1.below).0;
        d = false;
      }
      unfolding line_fill set_way
      filled_way =
          let c2 = line_fill lo (set_of pa) w pa c1 in
          let s = (lo.reload (bit_and pa (not32 31)) c1.below).1 in
          stamped (set_of pa) w c2
          ∙ ap (λ (x : Way). record x { age = u32 (c1.clock + 1) })
              (set_way_here (set_of pa) w _ (record c1 { below = s }))

      same_base : (a : ℕ) → (a >>> 5) ≡ (pa >>> 5) → (a >>> 5) ≡ (bit_and pa (not32 31) >>> 5)
      same_base a same = omega (arith, same, line_base pa hp)

      filled : Placed Ok view pa w c1 after_fill
      unfolding line_fill stamp set_way
      filled =
          let base = bit_and pa (not32 31) in
          let got = lo.reload base c1.below in
          let c2 = line_fill lo (set_of pa) w pa c1 in
          record {
            lower = law.reload-Ok base c1.below (line_base-lt pa hp) (re.coherent).lower;
            differs =
                Differs-trans (set_of pa) w c1 c2 after_fill
                  (set_way-Differs_after (set_of pa) w _ (got.1) c1)
                  (stamp-Differs (set_of pa) w c2);
            tag = ap (λ (x : Way). x.tv) filled_way;
            same_below =
                λ a ha. law.reload_view base a c1.below (line_base-lt pa hp) (re.coherent).lower ha;
            own = λ a ha p t. absurd (re.empty a ha t);
            only = λ v h. absurd (missed_now pa v hp refl h);
            fresh = λ not_dirty a ha same.
                ap (λ (x : Way). x.b (bit_and a 31)) filled_way
                ∙ law.reload_line base a c1.below (line_base-lt pa hp) (re.coherent).lower ha
                    (same_base a same);
          }

      Serves-fill : Serves pa w c after_fill
      Serves-fill = record {
        way_lt = re.way_lt;
        coherent = Placed-Coherent Ok view pa w c1 after_fill re.coherent hp re.way_lt filled;
        same_bytes = λ a ha.
            Placed_bytes Ok view pa w c1 after_fill re.coherent hp re.way_lt filled a ha
            ∙ put_line_same pa _ (cached_byte view c1) a (λ same.
              ap (λ (x : Way). x.b (bit_and a 31)) filled_way
              ∙ law.reload_line (bit_and pa (not32 31)) a c1.below (line_base-lt pa hp)
                  (re.coherent).lower ha (same_base a same)
              ∙ sym (cached_byte_miss Ok view a c1 (λ v. missed_now a v ha same)))
            ∙ re.same_bytes a ha;
        holds = now-Holds Ok view pa w c1 after_fill re.coherent hp re.way_lt filled pa hp refl;
      }

    -- The search and, on a miss, the fill.
    pub served :
        Serves pa
          ((hit_or_fill lo pa ((line_way pa c).0) ((line_way pa c).1)).0)
          c
          ((hit_or_fill lo pa ((line_way pa c).0) ((line_way pa c).1)).1)
    unfolding line_way hit_or_fill allocate age_of_hit
    served = elim (lookup_cases pa c) [
      | inl (w, h, e) ↦ subst after_search (sym e) (Serves-hit w h)
      | inr (no_way, e) ↦ subst after_search (sym e) (
          Serves-fill ((line_victim lo pa c).0) ((line_victim lo pa c).1)
            (line_victim-Ready lo Ok view law pa c ok) no_way)
    ]
      where
        after_search : Option ℕ → Type 0
        after_search r =
            Serves pa ((hit_or_fill lo pa r (age_of_hit pa r c)).0) c
              ((hit_or_fill lo pa r (age_of_hit pa r c)).1)
