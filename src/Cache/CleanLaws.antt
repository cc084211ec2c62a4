-- ===== src/Cache/CleanLaws.antt =====
-- dcbst and dcbf (dcbClean and linePush of core/src/cache.cpp) against the flat memory of bytes that the
-- cache presents.
use open_power_mac.Prelude.{
  ℕ, ◌^◌, ◌<◌, ◌≡◌, refl, sym, ap, ◌∙◌, inl, inr, Bool, true, false, Option, none, some, bit_and,
  if◌then◌else◌, ◌>>>◌, subst, has, arith,
}
use open_power_mac.Cache.Bytes.{set_of, tv_of, block_base}
use open_power_mac.Cache.Lower.{Lower, IsBacking}
use open_power_mac.Cache.Places.{set_of-lt, block_base-lt, same_block_place, tv_of_value}
use open_power_mac.Cache.Index.{
  Way, Cache, line_way, line_way_quiet, set_way, stamp, on_below, set_tv, set_dirty, age_of_hit,
  line_push,
}
use open_power_mac.Cache.View.{
  Holds, Holds-lt, Coherent, cached_byte, lookup_cases, cached_byte_hit, cached_byte_miss,
}
use open_power_mac.Cache.Change.{
  Differs, set_way_here, set_way-Differs, Emptied, Emptied-Coherent, Emptied_bytes, held_before,
  gone,
}
use open_power_mac.Cache.Placing.{Placed, Placed-Coherent, Placed_bytes}
use open_power_mac.Cache.Victim.{odd_valid, give_up, drop_clean}
use open_power_mac.Cache.Serve.{Holds-block, put_line_same, Serves-hit}
use open_power_mac.Cache.WriteLaws.{below_bytes, below-Coherent}
use open_power_mac.Cache.Maintain.{clean_hit, dcb_clean}

Differs-sym : {S : Type 0} (set w : ℕ) (c c' : Cache S) → Differs set w c c' → Differs set w c' c
unfolding Differs
Differs-sym set w c c' d s v = elim (d s v) [ inl here ↦ inl here | inr e ↦ inr (sym e) ]

module _ {S : Type 0} (lo : Lower S) (Ok : S → Type 0) (view : S → ℕ → ℕ)
    (law : IsBacking lo Ok view) where
  -- The cache presents the same bytes.
  record Keeps (c c' : Cache S) : Type 0 where
    coherent : Coherent Ok view c'
    bytes : (a : ℕ) → a < 2 ^ 32 → cached_byte view c' a ≡ cached_byte view c a

  -- The block of an address cleaned: it is below, and in the cache where it was or nowhere.
  record Cleaned (pa : ℕ) (invalidate : Bool) (c c' : Cache S) : Type 0 where
    keeps : Keeps c c'
    stored : (b : ℕ) → b < 2 ^ 32 → (b >>> 5) ≡ (pa >>> 5) → view c'.below b ≡ cached_byte view c b
    found : line_way_quiet pa c' ≡ (if invalidate then none else line_way_quiet pa c)

  module _ (pa : ℕ) (hp : pa < 2 ^ 32) (w : ℕ) (c : Cache S) (ok : Coherent Ok view c)
      (h : Holds c pa w) where
    Emptied-Keeps : (c' : Cache S) → Emptied Ok view (set_of pa) w c c' → Keeps c c'
    Emptied-Keeps c' em = record {
      coherent =
          Emptied-Coherent Ok view (set_of pa) w c c' ok (set_of-lt pa) (Holds-lt c pa w h) em;
      bytes = Emptied_bytes Ok view (set_of pa) w c c' ok (set_of-lt pa) (Holds-lt c pa w h) em;
    }

    pushed_way : Cache S
    pushed_way = line_push lo (set_of pa) w ((c.ways (set_of pa) w).tv >>> 1) c

    valid_way : has (c.ways (set_of pa) w).tv 1 ≡ true
    unfolding Holds
    valid_way = ap (λ (t : ℕ). has t 1) h.1 ∙ odd_valid pa hp

    push_Emptied : Emptied Ok view (set_of pa) w c (set_tv (set_of pa) w 0 pushed_way)
    unfolding pushed_way line_push on_below
    push_Emptied =
        let e = c.ways (set_of pa) w in
        let base = block_base (set_of pa) (e.tv >>> 1) in
        let hb = block_base-lt (set_of pa) (e.tv >>> 1) in
        give_up lo Ok view law (set_of pa) (set_of-lt pa) c ok w (lo.push base e.b c.below)
          (Holds-lt c pa w h) valid_way (law.push-Ok base e.b c.below hb ok.lower)
          (λ a ha. law.push_view base e.b a c.below hb ok.lower ha)

    pushed_line : pushed_way.ways (set_of pa) w ≡ record (c.ways (set_of pa) w) { d = false }
    unfolding pushed_way line_push on_below set_dirty
    pushed_line =
        let e = c.ways (set_of pa) w in
        set_way_here (set_of pa) w (record e { d = false })
          (record c { below = lo.push (block_base (set_of pa) (e.tv >>> 1)) e.b c.below })

    -- A push that leaves the copy: as if the way were emptied and took the same line again.
    push-Keeps : Keeps c pushed_way
    unfolding set_tv set_way Holds
    push-Keeps =
        let em = push_Emptied in
        let mid = set_tv (set_of pa) w 0 pushed_way in
        let k = Emptied-Keeps mid em in
        let tag : (c.ways (set_of pa) w).tv ≡ tv_of pa = h.1 in
        let line : (a : ℕ)
            → a < 2 ^ 32
            → (a >>> 5) ≡ (pa >>> 5)
            → (pushed_way.ways (set_of pa) w).b (bit_and a 31)
              ≡ (c.ways (set_of pa) w).b (bit_and a 31) =
          λ a ha same. ap (λ (x : Way). x.b (bit_and a 31)) pushed_line in
        let pl : Placed Ok view pa w mid pushed_way = record {
          lower = em.lower;
          differs =
              Differs-sym (set_of pa) w pushed_way mid (set_way-Differs (set_of pa) w _ pushed_way);
          tag = ap (λ (x : Way). x.tv) pushed_line ∙ tag;
          same_below = λ a ha. refl;
          own = λ a ha p t. absurd (omega (arith, em.empty, t, tv_of_value a ha));
          only = λ v hv.
              ok.unique pa v w hp
                (held_before Ok view (set_of pa) w c mid ok (set_of-lt pa) (Holds-lt c pa w h) em pa
                  v hp hv).0
                h;
          fresh = λ not_dirty a ha same.
              let (p, t) = same_block_place a pa ha hp same in
              line a ha same ∙ sym (em.out a ha p (tag ∙ sym t));
        } in
        record {
          coherent =
              Placed-Coherent Ok view pa w mid pushed_way k.coherent hp (Holds-lt c pa w h) pl;
          bytes = λ a ha.
              Placed_bytes Ok view pa w mid pushed_way k.coherent hp (Holds-lt c pa w h) pl a ha
              ∙ put_line_same pa _ (cached_byte view mid) a (λ same.
                line a ha same
                ∙ ap (λ (s : ℕ). (c.ways s w).b (bit_and a 31))
                    (sym (same_block_place a pa ha hp same).0)
                ∙ sym
                    (cached_byte_hit Ok view a w c ha ok (Holds-block pa a w c hp ha (sym same) h))
                ∙ sym (k.bytes a ha))
              ∙ k.bytes a ha;
        }

    -- What an emptied way held is below.
    stored_below :
        (c' : Cache S)
        → Emptied Ok view (set_of pa) w c c'
        → (b : ℕ) → b < 2 ^ 32
        → (b >>> 5) ≡ (pa >>> 5)
        → view c'.below b ≡ cached_byte view c b
    unfolding Holds
    stored_below c' em b hb same =
        let (p, t) = same_block_place b pa hb hp same in
        em.out b hb p (h.1 ∙ sym t)
        ∙ ap (λ (s : ℕ). (c.ways s w).b (bit_and b 31)) (sym p)
        ∙ sym (cached_byte_hit Ok view b w c hb ok (Holds-block pa b w c hp hb (sym same) h))

    Emptied-absent :
        (c' : Cache S) → Emptied Ok view (set_of pa) w c c' → line_way_quiet pa c' ≡ none
    Emptied-absent c' em = elim (lookup_cases pa c') [
      | inl (v, k, e) ↦ absurd (
          gone Ok view (set_of pa) w c c' ok (set_of-lt pa) (Holds-lt c pa w h) em pa w hp refl refl
            h v k)
      | inr (_, e) ↦ e
    ]

    still_found :
        (c' : Cache S) → Coherent Ok view c' → Holds c' pa w → line_way_quiet pa c' ≡ some w
    still_found c' ok' h' = elim (lookup_cases pa c') [
      | inl (v, k, e) ↦ e ∙ ap some (ok'.unique pa v w hp k h')
      | inr (no_way, e) ↦ absurd (no_way w h')
    ]

    clean-Cleaned :
        (invalidate : Bool) → Cleaned pa invalidate c (clean_hit lo pa invalidate (some w) c)
    unfolding clean_hit pushed_way Holds set_tv set_way
    clean-Cleaned invalidate = by_state (c.ways (set_of pa) w).d refl invalidate
      where
        by_state :
            (t : Bool)
            → (c.ways (set_of pa) w).d ≡ t
            → (inv : Bool)
            → Cleaned pa inv c (
                let c' : Cache S =
                  if t then line_push lo (set_of pa) w ((c.ways (set_of pa) w).tv >>> 1) c else c in
                if inv then set_tv (set_of pa) w 0 c' else c')
        by_state true e true = record {
          keeps = Emptied-Keeps _ push_Emptied;
          stored = stored_below _ push_Emptied;
          found = Emptied-absent _ push_Emptied;
        }
        by_state true e false = record {
          keeps = push-Keeps;
          stored = stored_below _ push_Emptied;
          found =
              still_found _ push-Keeps.coherent (h.0, ap (λ (x : Way). x.tv) pushed_line ∙ h.1)
              ∙ sym (still_found c ok h);
        }
        by_state false e true =
            let em =
              drop_clean lo Ok view law (set_of pa) (set_of-lt pa) c ok w (Holds-lt c pa w h) e in
            record {
              keeps = Emptied-Keeps _ em;
              stored = stored_below _ em;
              found = Emptied-absent _ em;
            }
        by_state false e false =
            let em =
              drop_clean lo Ok view law (set_of pa) (set_of-lt pa) c ok w (Holds-lt c pa w h) e in
            record {
              keeps = record { coherent = ok; bytes = λ a ha. refl };
              stored = stored_below _ em;
              found = refl;
            }

  module _ (pa : ℕ) (hp : pa < 2 ^ 32) where
    cleaned :
        (invalidate : Bool) (c : Cache S)
        → Coherent Ok view c
        → Cleaned pa invalidate c (dcb_clean lo pa invalidate c)
    unfolding dcb_clean line_way age_of_hit clean_hit on_below line_way_quiet
    cleaned invalidate c ok =
        let s = lo.fetch_drop_at pa c.below in
        let c0 : Cache S = record c { below = s } in
        let same : (a : ℕ) → a < 2 ^ 32 → view s a ≡ view c.below a =
          λ a ha. law.drop_view pa a c.below ok.lower ha in
        let ok0 = below-Coherent lo Ok view law s c (law.drop-Ok pa c.below ok.lower) same ok in
        let k : Cleaned pa invalidate c0 (dcb_clean lo pa invalidate c) =
          elim (lookup_cases pa c0) [
            | inr (no_way, e) ↦ subst (after invalidate c0) (sym e) (record {
              keeps = record { coherent = ok0; bytes = λ a ha. refl };
              stored = λ b hb at. sym (
                  cached_byte_miss Ok view b c0
                    (λ w h. no_way w (Holds-block b pa w c0 hb hp at h)));
              found = missing invalidate c0 e;
            })
            | inl (w, h, e) ↦
                let c1 = stamp (set_of pa) w c0 in
                let sv = Serves-hit lo Ok view law pa hp c0 ok0 w h in
                let k1 = clean-Cleaned pa hp w c1 sv.coherent sv.holds invalidate in
                subst (after invalidate c0) (sym e) (record {
                  keeps = record {
                    coherent = k1.keeps.coherent;
                    bytes = λ a ha. k1.keeps.bytes a ha ∙ sv.same_bytes a ha;
                  };
                  stored = λ b hb at. k1.stored b hb at ∙ sv.same_bytes b hb;
                  found =
                      k1.found
                      ∙ ap (λ (r : Option ℕ). if invalidate then none else r)
                          (still_found pa hp w c1 sv.coherent sv.holds c1 sv.coherent sv.holds
                            ∙ sym e);
                })
          ] in
        let below = λ (a : ℕ) (ha : a < 2 ^ 32). below_bytes lo Ok view law s c a (same a ha) in
        record {
          keeps = record {
            coherent = k.keeps.coherent;
            bytes = λ a ha. k.keeps.bytes a ha ∙ below a ha;
          };
          stored = λ b hb at. k.stored b hb at ∙ below b hb;
          found = k.found;
        }
      where
        after : Bool → Cache S → Option ℕ → Type 0
        after invalidate c0 r =
            Cleaned pa invalidate c0 (clean_hit lo pa invalidate r (age_of_hit pa r c0))

        missing :
            (inv : Bool) (c0 : Cache S)
            → line_way_quiet pa c0 ≡ none
            → line_way_quiet pa c0 ≡ (if inv then none else line_way_quiet pa c0)
        missing true c0 e = e
        missing false c0 e = refl

  -- A dcbst and a dcbf leave every byte of the block of their address below the cache as the cache
  -- presented it; the dcbf leaves no way that holds the block, the dcbst leaves it where it was. They
  -- change no byte that the cache presents, and the cache stays coherent. The cache is coherent and the
  -- state below keeps a flat memory.
  pub dcb_clean_flat :
      (pa a b : ℕ) (invalidate : Bool) (c : Cache S)
      → Coherent Ok view c
      → pa < 2 ^ 32
      → a < 2 ^ 32
      → b < 2 ^ 32
      → (b >>> 5) ≡ (pa >>> 5)
      → (view (dcb_clean lo pa invalidate c).below b ≡ cached_byte view c b)
        × (line_way_quiet pa (dcb_clean lo pa invalidate c)
            ≡ (if invalidate then none else line_way_quiet pa c))
        × Coherent Ok view (dcb_clean lo pa invalidate c)
        × (cached_byte view (dcb_clean lo pa invalidate c) a ≡ cached_byte view c a)
  dcb_clean_flat pa a b invalidate c ok hp ha hb at =
      let k = cleaned pa hp invalidate c ok in
      (k.stored b hb at, k.found, k.keeps.coherent, k.keeps.bytes a ha)
