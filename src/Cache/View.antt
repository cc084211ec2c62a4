-- ===== src/Cache/View.antt =====
-- The bytes that the data cache presents (core/src/cache.cpp): a block of the cache hides the memory
-- below it. The invariant of the cache: a block stands in one way only, an entry is that of an address,
-- and a line that is not modified equals what lies below.
use open_power_mac.Prelude.{
  ℕ, zero, suc, ◌+◌, ◌^◌, ◌≤◌, ◌<◌, ◌≡◌, ◌≢◌, refl, sym, ap, ◌∙◌, ◌⊎◌, inl, inr, Bool, true, false,
  Option, none, some, bit_and, arith, ◌==◌, if◌then◌else◌, Option-cases, has, dec_eq, subst, ==→eq,
  eq→==,
}
use mathlib.Core.Bool.{true≢false}
use mathlib.Core.Option.{some-injective, none-ne-some}
use open_power_mac.Cache.Bytes.{set_of, tv_of}
use open_power_mac.Cache.Index.{Way, Cache, find_from, line_way_quiet}

-- What the search of a set finds.
first_or :
    (w k : ℕ) (t : Bool) (rest : Option ℕ)
    → (if t then some w else rest) ≡ some k
    → ((t ≡ true) × (w ≡ k)) ⊎ (rest ≡ some k)
first_or w k true rest h = inl (refl, some-injective w k h)
first_or w k false rest h = inr h

none_of :
    (w : ℕ) (t : Bool) (rest : Option ℕ)
    → (if t then some w else rest) ≡ none
    → (t ≡ false) × (rest ≡ none)
none_of w true rest h = absurd (none-ne-some w (sym h))
none_of w false rest h = (refl, h)

found_tag :
    (n w : ℕ) (x : ℕ → Way) (want k : ℕ)
    → find_from n w x want ≡ some k
    → (k < w + n) × ((x k).tv ≡ want)
unfolding find_from
found_tag zero w x want k h = absurd (none-ne-some k h)
found_tag (suc n) w x want k h = elim (first_or w k ((x w).tv == want) _ h) [
  | inl (t, e) ↦ (omega arith, subst (λ (j : ℕ). (x j).tv ≡ want) e (==→eq (x w).tv want t))
  | inr rest ↦ let (low, tag) = found_tag n (suc w) x want k rest in (omega arith, tag)
]

not_found :
    (n w : ℕ) (x : ℕ → Way) (want k : ℕ)
    → find_from n w x want ≡ none
    → w ≤ k
    → k < w + n
    → (x k).tv ≢ want
unfolding find_from
not_found zero w x want k h low high = absurd (omega arith)
not_found (suc n) w x want k h low high =
    let (t, rest) = none_of w ((x w).tv == want) _ h in
    elim (dec_eq k w) [
      | yes e ↦ λ tag.
          absurd
            (true≢false (sym (eq→== (x w).tv want (ap (λ (j : ℕ). (x j).tv) (sym e) ∙ tag)) ∙ t))
      | no ne ↦ not_found n (suc w) x want k rest (omega arith) (omega arith)
    ]

module _ {S : Type 0} where
  -- A way holds the block of an address.
  unfoldable pub Holds : Cache S → ℕ → ℕ → Type 0
  Holds c a w = (w < 8) × ((c.ways (set_of a) w).tv ≡ tv_of a)

  pub Holds-lt : (c : Cache S) (a w : ℕ) → Holds c a w → w < 8
  unfolding Holds
  Holds-lt c a w h = h.0

  unfoldable pub byte_in : (S → ℕ → ℕ) → Cache S → ℕ → Option ℕ → ℕ
  byte_in view c a none = view c.below a
  byte_in view c a (some w) = (c.ways (set_of a) w).b (bit_and a 31)

  unfoldable pub cached_byte : (S → ℕ → ℕ) → Cache S → ℕ → ℕ
  cached_byte view c a = byte_in view c a (line_way_quiet a c)

  pub record Coherent (Ok : S → Type 0) (view : S → ℕ → ℕ) (c : Cache S) : Type 0 where
    pub lower : Ok c.below
    pub unique : (a w v : ℕ) → a < 2 ^ 32 → Holds c a w → Holds c a v → w ≡ v
    pub known :
        (set w : ℕ)
        → set < 128
        → w < 8
        → has (c.ways set w).tv 1 ≡ true
        → (c.ways set w).tv < 2 ^ 21
    pub clean :
        (a w : ℕ)
        → a < 2 ^ 32
        → Holds c a w
        → (c.ways (set_of a) w).d ≡ false
        → (c.ways (set_of a) w).b (bit_and a 31) ≡ view c.below a

  pub lookup_cases :
      (a : ℕ) (c : Cache S)
      → ((w : ℕ) × Holds c a w × (line_way_quiet a c ≡ some w))
        ⊎ (((w : ℕ) → ¬ Holds c a w) × (line_way_quiet a c ≡ none))
  unfolding line_way_quiet Holds
  lookup_cases a c = elim (Option-cases (find_from 8 0 (c.ways (set_of a)) (tv_of a))) [
    | inl e ↦ inr (
      (λ w h.
          not_found 8 0 (c.ways (set_of a)) (tv_of a) w e (omega arith) (omega (arith, h.0)) h.1),
      e,
    )
    | inr (w, e) ↦ inl (w, found_tag 8 0 (c.ways (set_of a)) (tv_of a) w e, e)
  ]

  module _ (Ok : S → Type 0) (view : S → ℕ → ℕ) where
    pub cached_byte_hit :
        (a w : ℕ) (c : Cache S)
        → a < 2 ^ 32
        → Coherent Ok view c
        → Holds c a w
        → cached_byte view c a ≡ (c.ways (set_of a) w).b (bit_and a 31)
    unfolding cached_byte byte_in
    cached_byte_hit a w c ha ok h = elim (lookup_cases a c) [
      | inl (v, k, e) ↦
          ap (byte_in view c a) e
          ∙ (ap (λ (t : ℕ). (c.ways (set_of a) t).b (bit_and a 31)) (ok.unique a v w ha k h))
      | inr (no_way, e) ↦ absurd (no_way w h)
    ]

    pub cached_byte_miss :
        (a : ℕ) (c : Cache S) → ((w : ℕ) → ¬ Holds c a w) → cached_byte view c a ≡ view c.below a
    unfolding cached_byte byte_in
    cached_byte_miss a c no_way = elim (lookup_cases a c) [
      | inl (v, k, e) ↦ absurd (no_way v k)
      | inr (_, e) ↦ ap (byte_in view c a) e
    ]
