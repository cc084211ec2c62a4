-- ===== src/Cache/Change.antt =====
-- How a way of the data cache that is emptied (core/src/cache.cpp) shows in the bytes that the cache
-- presents.
use open_power_mac.Prelude.{
  ℕ, ◌^◌, ◌<◌, ◌≡◌, ◌≢◌, sym, ap, ◌∙◌, ◌⊎◌, inl, inr, true, bit_and, arith, has, dec_eq, update,
  update_same, update_other,
}
use open_power_mac.Cache.Bytes.{set_of, tv_of}
use open_power_mac.Cache.Places.{tv_of_value}
use open_power_mac.Cache.Index.{Way, Cache, set_way}
use open_power_mac.Cache.View.{
  Holds, Coherent, cached_byte, lookup_cases, cached_byte_hit, cached_byte_miss,
}

module _ {S : Type 0} where
  -- The second cache differs from the first in one way at most, and in what lies below.
  unfoldable pub Differs : ℕ → ℕ → Cache S → Cache S → Type 0
  Differs set w c c' = (s v : ℕ) → ((s ≡ set) × (v ≡ w)) ⊎ (c'.ways s v ≡ c.ways s v)

  pub set_way_here : (set w : ℕ) (e : Way) (c : Cache S) → (set_way set w e c).ways set w ≡ e
  unfolding set_way
  set_way_here set w e c =
      ap (λ (f : ℕ → Way). f w) (update_same c.ways set _) ∙ update_same (c.ways set) w e

  pub set_way-Differs : (set w : ℕ) (e : Way) (c : Cache S) → Differs set w c (set_way set w e c)
  unfolding set_way Differs
  set_way-Differs set w e c s v = elim (dec_eq s set) [
    | no ne ↦ inr (ap (λ (f : ℕ → Way). f v) (update_other c.ways set s _ ne))
    | yes p ↦ elim (dec_eq v w) [
      | yes q ↦ inl (p, q)
      | no ne ↦ inr (
          ap (λ (t : ℕ). update c.ways set (update (c.ways set) w e) t v) p
          ∙ ap (λ (f : ℕ → Way). f v) (update_same c.ways set _)
          ∙ update_other (c.ways set) w v e ne
          ∙ ap (λ (t : ℕ). c.ways t v) (sym p))
    ]
  ]

  -- The same when what lies below changes first.
  pub set_way-Differs_after :
      (set w : ℕ) (e : Way) (s : S) (c : Cache S)
      → Differs set w c (set_way set w e (record c { below = s }))
  unfolding Differs
  set_way-Differs_after set w e s c = set_way-Differs set w e (record c { below = s })

  pub Differs-trans :
      (set w : ℕ) (c c' c'' : Cache S)
      → Differs set w c c'
      → Differs set w c' c''
      → Differs set w c c''
  unfolding Differs
  Differs-trans set w c c' c'' h k s v = elim (k s v) [
    | inl here ↦ inl here
    | inr e ↦ elim (h s v) [ inl here ↦ inl here | inr e' ↦ inr (e ∙ e') ]
  ]

  -- What a way that stays as it was still holds.
  pub still-Holds :
      (a v : ℕ) (c c' : Cache S)
      → c'.ways (set_of a) v ≡ c.ways (set_of a) v
      → Holds c a v
      → Holds c' a v
  unfolding Holds
  still-Holds a v c c' e (low, tag) = (low, ap (λ (x : Way). x.tv) e ∙ tag)

  module _ (Ok : S → Type 0) (view : S → ℕ → ℕ) where
    pub still_known :
        (set w : ℕ) (c c' : Cache S)
        → Coherent Ok view c
        → Differs set w c c'
        → (c'.ways set w).tv < 2 ^ 21
        → (s v : ℕ) → s < 128
        → v < 8
        → has (c'.ways s v).tv 1 ≡ true
        → (c'.ways s v).tv < 2 ^ 21
    unfolding Differs
    still_known set w c c' ok differs small s v hs hv valid = elim (differs s v) [
      | inl (p, q) ↦
          let here : (c'.ways s v).tv ≡ (c'.ways set w).tv =
            ap (λ (t : ℕ). (c'.ways t v).tv) p ∙ ap (λ (t : ℕ). (c'.ways set t).tv) q in
          omega (arith, here, small)
      | inr e ↦
          let same_tv : (c'.ways s v).tv ≡ (c.ways s v).tv = ap (λ (x : Way). x.tv) e in
          let before = ok.known s v hs hv (ap (λ (t : ℕ). has t 1) (sym same_tv) ∙ valid) in
          omega (arith, same_tv, before)
    ]

    -- A way is emptied, and what it held is below; the other bytes below stay.
    pub record Emptied (set w : ℕ) (c c' : Cache S) : Type 0 where
      pub lower : Ok c'.below
      pub differs : Differs set w c c'
      pub empty : (c'.ways set w).tv ≡ 0
      pub out :
          (a : ℕ)
          → a < 2 ^ 32
          → set_of a ≡ set
          → (c.ways set w).tv ≡ tv_of a
          → view c'.below a ≡ (c.ways set w).b (bit_and a 31)
      pub rest :
          (a : ℕ)
          → a < 2 ^ 32
          → (set_of a ≡ set → (c.ways set w).tv ≢ tv_of a)
          → view c'.below a ≡ view c.below a

    module _ (set w : ℕ) (c c' : Cache S) (ok : Coherent Ok view c) (hs : set < 128) (hw : w < 8)
        (em : Emptied set w c c') where
      pub held_before :
          (a v : ℕ)
          → a < 2 ^ 32
          → Holds c' a v
          → Holds c a v × (c'.ways (set_of a) v ≡ c.ways (set_of a) v)
      unfolding Differs Holds
      held_before a v ha (low, tag) = elim (em.differs (set_of a) v) [
        | inl (p, q) ↦
            let gone : (c'.ways (set_of a) v).tv ≡ 0 =
              ap (λ (t : ℕ). (c'.ways t v).tv) p
              ∙ ap (λ (t : ℕ). (c'.ways set t).tv) q
              ∙ em.empty in
            absurd (omega (arith, gone, tag, tv_of_value a ha))
        | inr e ↦ ((low, ap (λ (x : Way). x.tv) (sym e) ∙ tag), e)
      ]

      below_kept : (a v : ℕ) → a < 2 ^ 32 → Holds c' a v → view c'.below a ≡ view c.below a
      unfolding Holds
      below_kept a v ha h =
          let (before, e) = held_before a v ha h in
          em.rest a ha (λ p tag.
            let here : Holds c a w = (hw, ap (λ (t : ℕ). (c.ways t w).tv) p ∙ tag) in
            let q : v ≡ w = ok.unique a v w ha before here in
            let gone : (c'.ways (set_of a) v).tv ≡ 0 =
              ap (λ (t : ℕ). (c'.ways t v).tv) p
              ∙ ap (λ (t : ℕ). (c'.ways set t).tv) q
              ∙ em.empty in
            absurd (omega (arith, gone, h.1, tv_of_value a ha)))

      pub gone :
          (a v : ℕ) → a < 2 ^ 32 → set_of a ≡ set → v ≡ w → Holds c a v → (u : ℕ) → ¬ Holds c' a u
      unfolding Holds
      gone a v ha p q h u k =
          let same_way : u ≡ w = ok.unique a u v ha (held_before a u ha k).0 h ∙ q in
          let none_there : (c'.ways (set_of a) u).tv ≡ 0 =
            ap (λ (t : ℕ). (c'.ways t u).tv) p
            ∙ ap (λ (t : ℕ). (c'.ways set t).tv) same_way
            ∙ em.empty in
          absurd (omega (arith, none_there, k.1, tv_of_value a ha))

      pub Emptied-Coherent : Coherent Ok view c'
      Emptied-Coherent = record {
        lower = em.lower;
        unique =
            λ a u v ha h k. ok.unique a u v ha (held_before a u ha h).0 (held_before a v ha k).0;
        known = still_known set w c c' ok em.differs (omega (arith, em.empty));
        clean = λ a v ha h fresh.
            let (before, e) = held_before a v ha h in
            ap (λ (x : Way). x.b (bit_and a 31)) e
            ∙ ok.clean a v ha before (ap (λ (x : Way). x.d) (sym e) ∙ fresh)
            ∙ sym (below_kept a v ha h);
      }

      -- The bytes that the cache presents do not change.
      pub Emptied_bytes : (a : ℕ) → a < 2 ^ 32 → cached_byte view c' a ≡ cached_byte view c a
      unfolding Differs Holds
      Emptied_bytes a ha = elim (lookup_cases a c) [
        | inr (no_way, e) ↦
            cached_byte_miss Ok view a c' (λ u h. no_way u (held_before a u ha h).0)
            ∙ em.rest a ha (λ p tag. no_way w (hw, ap (λ (t : ℕ). (c.ways t w).tv) p ∙ tag))
            ∙ sym (cached_byte_miss Ok view a c no_way)
        | inl (v, h, e) ↦ elim (em.differs (set_of a) v) [
          | inr kept ↦
              cached_byte_hit Ok view a v c' ha Emptied-Coherent (still-Holds a v c c' kept h)
              ∙ ap (λ (x : Way). x.b (bit_and a 31)) kept
              ∙ sym (cached_byte_hit Ok view a v c ha ok h)
          | inl (p, q) ↦
              let before : c.ways (set_of a) v ≡ c.ways set w =
                ap (λ (t : ℕ). c.ways t v) p ∙ ap (c.ways set) q in
              cached_byte_miss Ok view a c' (gone a v ha p q h)
              ∙ em.out a ha p (ap (λ (x : Way). x.tv) (sym before) ∙ h.1)
              ∙ ap (λ (x : Way). x.b (bit_and a 31)) (sym before)
              ∙ sym (cached_byte_hit Ok view a v c ha ok h)
        ]
      ]
