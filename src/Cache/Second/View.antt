-- ===== src/Cache/Second/View.antt =====
-- The flat memory that the second-level cache keeps over the bus (core/src/cache.cpp), and its
-- invariant: a block stands once, in a way of its set, and a line that is not modified equals the bus.
use open_power_mac.Prelude.{
  ℕ, ◌+◌, ◌^◌, ◌<◌, ◌≡◌, ◌⊎◌, refl, sym, ap, ◌∙◌, inl, inr, Bool, true, false, Option, none, some,
  ◌&&◌, bit_and, ◌==◌, if◌then◌else◌, ◌>>>◌, eq→==, ==→eq,
}
use mathlib.Core.Bool.{true≢false}
use open_power_mac.Cache.Bytes.{Line}
use open_power_mac.Cache.Lower.{put_line}
use open_power_mac.Cache.Second.Array.{Bus, L2Line, Backside, holds_tag, first_way, l2_hit}

-- A bus that is a flat memory of bytes for bursts.
pub record IsRam {M : Type 0} (bus : Bus M) (ram : M → ℕ → ℕ) : Type 0 where
  pub read_line :
      (base a : ℕ) (m : M)
      → a < 2 ^ 32
      → (a >>> 5) ≡ (base >>> 5)
      → ((bus.read_line32 base m).0) (bit_and a 31) ≡ ram m a
  pub read_ram : (base a : ℕ) (m : M) → a < 2 ^ 32 → ram ((bus.read_line32 base m).1) a ≡ ram m a
  pub write_ram :
      (base : ℕ) (b : Line) (a : ℕ) (m : M)
      → a < 2 ^ 32
      → ram (bus.write_line32 base b m) a ≡ put_line base b (ram m) a

-- A line has the block of an address.
pub has_tag : (a : ℕ) (e : L2Line) → e.v ≡ true → e.tag ≡ (a >>> 5) → holds_tag a e ≡ true
unfolding holds_tag
has_tag a e v t = rw (v, eq→== e.tag (a >>> 5) t) refl

pub tag_of_holder : (a : ℕ) (e : L2Line) → holds_tag a e ≡ true → (e.v ≡ true) × (e.tag ≡ (a >>> 5))
unfolding holds_tag
tag_of_holder a e h = let (v, t) = both e.v (e.tag == (a >>> 5)) h in (v, ==→eq e.tag (a >>> 5) t)
  where
    both : (p q : Bool) → (p && q) ≡ true → (p ≡ true) × (q ≡ true)
    both true true h = (refl, refl)
    both true false h = absurd (true≢false (sym h))
    both false q h = absurd (true≢false (sym h))

two_ways :
    (p q : Bool) (i j : ℕ)
    → ((p ≡ true) × ((if p then some i else if q then some j else none) ≡ some i))
      ⊎ (((q ≡ true) × ((if p then some i else if q then some j else none) ≡ some j))
          ⊎ ((p ≡ false)
              × (q ≡ false)
              × ((if p then some i else if q then some j else none) ≡ none)))
two_ways true q i j = inl (refl, refl)
two_ways false true i j = inr (inl (refl, refl))
two_ways false false i j = inr (inr (refl, refl, refl))

module _ {M : Type 0} where
  unfoldable pub Has : Backside M → ℕ → ℕ → Type 0
  Has s a i = holds_tag a (s.l2 i) ≡ true

  -- The two ways of a set.
  unfoldable pub InPair : Backside M → ℕ → ℕ → Type 0
  InPair s a i = (i ≡ first_way a s) ⊎ (i ≡ first_way a s + 1)

  unfoldable pub line_byte : (M → ℕ → ℕ) → Backside M → ℕ → Option ℕ → ℕ
  line_byte ram s a none = ram s.bus a
  line_byte ram s a (some i) = (s.l2 i).b (bit_and a 31)

  unfoldable pub l2_byte : (M → ℕ → ℕ) → Backside M → ℕ → ℕ
  l2_byte ram s a = line_byte ram s a (l2_hit a s)

  pub record L2Coherent (ram : M → ℕ → ℕ) (s : Backside M) : Type 0 where
    pub sized : (s.l2_sets == 0) ≡ false
    pub active : s.l2_inert ≡ false
    pub placed : (i a : ℕ) → a < 2 ^ 32 → Has s a i → InPair s a i
    pub unique : (i j a : ℕ) → a < 2 ^ 32 → Has s a i → Has s a j → i ≡ j
    pub known : (i : ℕ) → (s.l2 i).v ≡ true → (s.l2 i).tag < 2 ^ 27
    pub clean :
        (i a : ℕ)
        → a < 2 ^ 32
        → Has s a i
        → (s.l2 i).d ≡ false
        → (s.l2 i).b (bit_and a 31) ≡ ram s.bus a

  module _ (ram : M → ℕ → ℕ) (s : Backside M) (ok : L2Coherent ram s) where
    pub l2_hit_cases :
        (a : ℕ)
        → a < 2 ^ 32
        → ((i : ℕ) × Has s a i × (l2_hit a s ≡ some i))
          ⊎ (((i : ℕ) → ¬ Has s a i) × (l2_hit a s ≡ none))
    unfolding l2_hit Has InPair
    l2_hit_cases a ha =
        let f = first_way a s in
        elim (two_ways (holds_tag a (s.l2 f)) (holds_tag a (s.l2 (f + 1))) f (f + 1)) [
          | inl (h, e) ↦ inl (f, h, e)
          | inr (inl (h, e)) ↦ inl (f + 1, h, e)
          | inr (inr (p, q, e)) ↦ inr (
            (λ i h. elim (ok.placed i a ha h) [
              | inl same ↦ true≢false (sym h ∙ ap (λ (j : ℕ). holds_tag a (s.l2 j)) same ∙ p)
              | inr same ↦ true≢false (sym h ∙ ap (λ (j : ℕ). holds_tag a (s.l2 j)) same ∙ q)
            ]),
            e,
          )
        ]

    pub l2_byte_hit :
        (a i : ℕ) → a < 2 ^ 32 → Has s a i → l2_byte ram s a ≡ (s.l2 i).b (bit_and a 31)
    unfolding l2_byte line_byte
    l2_byte_hit a i ha h = elim (l2_hit_cases a ha) [
      | inl (j, k, e) ↦
          ap (line_byte ram s a) e
          ∙ ap (λ (t : ℕ). (s.l2 t).b (bit_and a 31)) (ok.unique j i a ha k h)
      | inr (no_way, _) ↦ absurd (no_way i h)
    ]

    pub l2_byte_miss :
        (a : ℕ) → a < 2 ^ 32 → ((i : ℕ) → ¬ Has s a i) → l2_byte ram s a ≡ ram s.bus a
    unfolding l2_byte line_byte
    l2_byte_miss a ha no_way = elim (l2_hit_cases a ha) [
      | inl (j, k, _) ↦ absurd (no_way j k)
      | inr (_, e) ↦ ap (line_byte ram s a) e
    ]
