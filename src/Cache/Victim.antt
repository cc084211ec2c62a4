-- ===== src/Cache/Victim.antt =====
-- The way that a fill takes (lineVictim and lineCastout of core/src/cache.cpp): it ends up empty, what
-- it held stands below, and the cache presents the same bytes.
use open_power_mac.Prelude.{
  ℕ, zero, suc, ◌+◌, ◌%◌, ◌^◌, ◌≤◌, ◌<◌, ◌≡◌, ◌≢◌, refl, sym, ap, ◌∙◌, ◌⊎◌, inl, inr, Bool, true,
  false, bit_and, arith, if◌then◌else◌, has, ◌>>>◌, not, ltb, dec_eq, subst, eq→==, ==_ne,
}
use mathlib.Core.Bool.{true≢false}
use open_power_mac.Prelude.BitLaws.{has-bit, bit, bit-zero}
use open_power_mac.Cache.Bytes.{set_of, tv_of, block_base}
use open_power_mac.Cache.Lower.{Lower, IsBacking, put_line}
use open_power_mac.Cache.Places.{
  set_of-lt, tv_of_value, castout_place, block_base-lt, castout_only, valid_odd,
}
use open_power_mac.Cache.Index.{
  Way, Cache, Choice, free, oldest, choose_from, set_way, set_tv, set_dirty, on_below, line_castout,
  vacate, line_victim,
}
use open_power_mac.Cache.View.{Holds, Coherent, cached_byte}
use open_power_mac.Cache.Change.{
  set_way_here, set_way-Differs, set_way-Differs_after, Differs-trans, Emptied, Emptied-Coherent,
  Emptied_bytes, held_before,
}

-- What the walk over the ways returns.
pub record Chosen (x : ℕ → Way) (w n best : ℕ) (r : Choice) : Type 0 where
  pub free_case : (k : ℕ) → r ≡ free k → (k < w + n) × (has (x k).tv 1 ≡ false)
  pub oldest_case :
      (b : ℕ)
      → r ≡ oldest b
      → ((k : ℕ) → w ≤ k → k < w + n → has (x k).tv 1 ≡ true)
        × ((b ≡ best) ⊎ ((w ≤ b) × (b < w + n)))

abbrev index_of : Choice → ℕ
index_of (free w) = w
index_of (oldest w) = w

abbrev is_free : Choice → Bool
is_free (free w) = true
is_free (oldest w) = false

free-oldest : (k b : ℕ) → free k ≢ oldest b
free-oldest k b e = true≢false (ap is_free e)

choose_one :
    (x : ℕ → Way) (w n best best' : ℕ) (t : Bool) (r : Choice)
    → has (x w).tv 1 ≡ t
    → ((best' ≡ w) ⊎ (best' ≡ best))
    → Chosen x (suc w) n best' r
    → Chosen x w (suc n) best (if not t then free w else r)
choose_one x w n best best' false r e p rest = record {
  free_case = λ k eq.
      let same : w ≡ k = ap index_of eq in
      (omega arith, subst (λ (j : ℕ). has (x j).tv 1 ≡ false) same e);
  oldest_case = λ b eq. absurd (free-oldest w b eq);
}
choose_one x w n best best' true r e p rest = record {
  free_case = λ k eq. let (low, q) = rest.free_case k eq in (omega arith, q);
  oldest_case = λ b eq.
      let (all, q) = rest.oldest_case b eq in
      (
        λ k low high. elim (dec_eq k w) [
          | yes same ↦ ap (λ (j : ℕ). has (x j).tv 1) same ∙ e
          | no ne ↦ all k (omega arith) (omega arith)
        ],
        elim q [
          | inl q' ↦ elim p [ inl p' ↦ inr (omega arith, omega arith) | inr p' ↦ inl (q' ∙ p') ]
          | inr (low, high) ↦ inr (omega arith, omega arith)
        ],
      );
}

chosen : (n w best : ℕ) (x : ℕ → Way) → Chosen x w n best (choose_from n w best x)
unfolding choose_from
chosen zero w best x = record {
  free_case = λ k eq. absurd (free-oldest k best (sym eq));
  oldest_case = λ b eq. (λ k low high. absurd (omega arith), inl (sym (ap index_of eq)));
}
chosen (suc n) w best x =
    choose_one x w n best _ (has (x w).tv 1) _ refl (either (ltb (x w).age (x best).age))
      (chosen n (suc w) (if ltb (x w).age (x best).age then w else best) x)
  where
    either : (t : Bool) → ((if t then w else best) ≡ w) ⊎ ((if t then w else best) ≡ best)
    either true = inl refl
    either false = inr refl

pub odd_valid : (a : ℕ) → a < 2 ^ 32 → has (tv_of a) 1 ≡ true
odd_valid a ha =
    let low : bit (tv_of a) 0 ≡ 1 = bit-zero (tv_of a) ∙ omega (arith, tv_of_value a ha) in
    has-bit 0 (tv_of a) ∙ eq→== (bit (tv_of a) 0) 1 low

module _ {S : Type 0} (lo : Lower S) (Ok : S → Type 0) (view : S → ℕ → ℕ)
    (law : IsBacking lo Ok view) where
  -- The cache after the search for a victim, for the block of an address.
  pub record Ready (set w : ℕ) (c c' : Cache S) : Type 0 where
    pub way_lt : w < 8
    pub coherent : Coherent Ok view c'
    pub same_bytes : (a : ℕ) → a < 2 ^ 32 → cached_byte view c' a ≡ cached_byte view c a
    pub empty : (a : ℕ) → a < 2 ^ 32 → (c'.ways set w).tv ≢ tv_of a
    pub no_new : (a v : ℕ) → a < 2 ^ 32 → Holds c' a v → Holds c a v

  module _ (set : ℕ) (hs : set < 128) (c : Cache S) (ok : Coherent Ok view c) where
    Ready-free : (w : ℕ) → w < 8 → has (c.ways set w).tv 1 ≡ false → Ready set w c c
    Ready-free w hw invalid = record {
      way_lt = hw;
      coherent = ok;
      same_bytes = λ a ha. refl;
      empty =
          λ a ha e. true≢false (sym (odd_valid a ha) ∙ ap (λ (t : ℕ). has t 1) (sym e) ∙ invalid);
      no_new = λ a v ha h. h;
    }

    Ready-Emptied : (w : ℕ) (c' : Cache S) → w < 8 → Emptied Ok view set w c c' → Ready set w c c'
    Ready-Emptied w c' hw em = record {
      way_lt = hw;
      coherent = Emptied-Coherent Ok view set w c c' ok hs hw em;
      same_bytes = Emptied_bytes Ok view set w c c' ok hs hw em;
      empty = λ a ha e. absurd (omega (arith, em.empty, e, tv_of_value a ha));
      no_new = λ a v ha h. (held_before Ok view set w c c' ok hs hw em a v ha h).0;
    }

    -- A line that is not modified goes: what lies below is the same.
    pub drop_clean :
        (w : ℕ) → w < 8 → (c.ways set w).d ≡ false → Emptied Ok view set w c (set_tv set w 0 c)
    unfolding set_tv set_way Holds
    drop_clean w hw not_dirty = record {
      lower = ok.lower;
      differs = set_way-Differs set w _ c;
      empty = ap (λ (x : Way). x.tv) (set_way_here set w _ c);
      out = λ a ha p tag.
          let there : c.ways (set_of a) w ≡ c.ways set w = ap (λ (t : ℕ). c.ways t w) p in
          sym (
            ok.clean a w ha (hw, ap (λ (x : Way). x.tv) there ∙ tag)
              (ap (λ (x : Way). x.d) there ∙ not_dirty))
          ∙ ap (λ (x : Way). x.b (bit_and a 31)) there;
      rest = λ a ha other. refl;
    }

    -- A modified line that is valid goes below first, by a castout or a push.
    pub give_up :
        (w : ℕ) (s : S)
        → w < 8
        → has (c.ways set w).tv 1 ≡ true
        → Ok s
        → ((a : ℕ)
            → a < 2 ^ 32
            → view s a
              ≡ put_line
                  (block_base set ((c.ways set w).tv >>> 1))
                  (c.ways set w).b
                  (view c.below)
                  a)
        → Emptied Ok view set w c (set_tv set w 0 (set_dirty set w false (record c { below = s })))
    unfolding set_tv set_dirty set_way put_line
    give_up w s hw valid lower below =
        let t = (c.ways set w).tv in
        let base = block_base set (t >>> 1) in
        let small : t < 2 ^ 21 = ok.known set w hs hw valid in
        let odd : t % 2 ≡ 1 = valid_odd t valid in
        let e = c.ways set w in
        let c2 = set_way set w (record e { d = false }) (record c { below = s }) in
        record {
          lower = lower;
          differs =
              Differs-trans set w c c2 _ (set_way-Differs_after set w (record e { d = false }) s c)
                (set_way-Differs set w _ c2);
          empty = ap (λ (x : Way). x.tv) (set_way_here set w _ c2);
          out = λ a ha p tag.
              below a ha
              ∙ ap (λ (t : Bool). if t then e.b (bit_and a 31) else view c.below a)
                  (eq→== (a >>> 5) (base >>> 5) (castout_place a set t ha hs small p (sym tag)));
          rest = λ a ha other.
              below a ha
              ∙ ap (λ (t : Bool). if t then e.b (bit_and a 31) else view c.below a)
                  (==_ne (a >>> 5) (base >>> 5) (λ same.
                    let (p, q) = castout_only a set t ha hs small odd same in other p (sym q)));
        }

    drop_dirty :
        (w : ℕ)
        → w < 8
        → has (c.ways set w).tv 1 ≡ true
        → Emptied Ok view set w c
            (set_tv set w 0 (line_castout lo set w ((c.ways set w).tv >>> 1) c))
    unfolding line_castout on_below
    drop_dirty w hw valid =
        let e = c.ways set w in
        let base = block_base set (e.tv >>> 1) in
        let hb = block_base-lt set (e.tv >>> 1) in
        give_up w (lo.castout base e.b c.below) hw valid
          (law.castout-Ok base e.b c.below hb ok.lower)
          (λ a ha. law.castout_view base e.b a c.below hb ok.lower ha)

    vacated :
        (r : Choice)
        → Chosen (c.ways set) 0 8 0 r
        → Ready set ((vacate lo set r c).0) c ((vacate lo set r c).1)
    unfolding vacate
    vacated (free w) ch = let (low, invalid) = ch.free_case w refl in Ready-free w low invalid
    vacated (oldest w) ch =
        let (all, place) = ch.oldest_case w refl in
        let low : w < 8 = elim place [ inl e ↦ omega arith | inr (_, h) ↦ h ] in
        Ready-Emptied w _ low (by_dirt w low (all w (omega arith) low) (c.ways set w).d refl)
      where
        by_dirt :
            (w : ℕ)
            → w < 8
            → has (c.ways set w).tv 1 ≡ true
            → (t : Bool) → (c.ways set w).d ≡ t
            → Emptied Ok view set w c (
                set_tv set w 0 (if t then line_castout lo set w ((c.ways set w).tv >>> 1) c else c))
        by_dirt w low valid true e = drop_dirty w low valid
        by_dirt w low valid false e = drop_clean w low e

  pub line_victim-Ready :
      (pa : ℕ) (c : Cache S)
      → Coherent Ok view c
      → Ready (set_of pa) ((line_victim lo pa c).0) c ((line_victim lo pa c).1)
  unfolding line_victim
  line_victim-Ready pa c ok =
      vacated (set_of pa) (set_of-lt pa) c ok (choose_from 8 0 0 (c.ways (set_of pa)))
        (chosen 8 0 0 (c.ways (set_of pa)))
