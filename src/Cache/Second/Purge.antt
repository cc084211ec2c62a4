-- ===== src/Cache/Second/Purge.antt =====
-- A block pushed past the second-level cache (linePush and l2Invalidate of core/src/cache.cpp): the bus has
-- it and no line does.
use open_power_mac.Prelude.{
  ℕ, ◌+◌, ◌^◌, ◌<◌, ◌≡◌, ◌≢◌, ◌⊎◌, refl, sym, ap, ◌∙◌, inl, inr, Bool, false, bit_and, ◌==◌,
  if◌then◌else◌, ◌>>>◌, dec_eq, eq→==, ==_ne, Bool-cases, subst, update, update_same, update_other,
}
use mathlib.Core.Bool.{true≢false}
use open_power_mac.Cache.Bytes.{Line}
use open_power_mac.Cache.Lower.{put_line}
use open_power_mac.Cache.Second.Array.{
  Bus, L2Line, Backside, holds_tag, first_way, bus_write_line, l2_invalidate, invalidate_way,
  fetch_drop_at, put_entry,
}
use open_power_mac.Cache.Second.View.{
  IsRam, tag_of_holder, Has, InPair, l2_byte, L2Coherent, l2_hit_cases, l2_byte_hit, l2_byte_miss,
}
use open_power_mac.Cache.Second.Change.{Has-block, Has-move, InPair-sets}

module _ {M : Type 0} where
  -- What an invalidation of some ways leaves: a line as it was, or an invalid one that had the block.
  pub record Fewer (pa : ℕ) (s s' : Backside M) : Type 0 where
    pub sets : s'.l2_sets ≡ s.l2_sets
    pub inert : s'.l2_inert ≡ s.l2_inert
    pub bus_same : s'.bus ≡ s.bus
    pub lines : (j : ℕ) → (s'.l2 j ≡ s.l2 j) ⊎ (((s'.l2 j).v ≡ false) × Has s pa j)

  Fewer-way :
      (pa i : ℕ) (s : Backside M)
      → Fewer pa s (invalidate_way pa i s) × ¬ Has (invalidate_way pa i s) pa i
  unfolding invalidate_way put_entry Has
  Fewer-way pa i s = elim (Bool-cases (holds_tag pa (s.l2 i))) [
    | inr f ↦ rw f (
      record { sets = refl; inert = refl; bus_same = refl; lines = λ j. inl refl },
      λ h. true≢false (sym h ∙ f),
    )
    | inl t ↦
        let e : L2Line = record (s.l2 i) { v = false } in
        let here : update s.l2 i e i ≡ e = update_same s.l2 i e in
        rw t (
          record {
            sets = refl;
            inert = refl;
            bus_same = refl;
            lines = λ j. elim (dec_eq j i) [
              | no ne ↦ inl (update_other s.l2 i j e ne)
              | yes p ↦ inr (
                ap (λ (n : ℕ). (update s.l2 i e n).v) p ∙ ap (λ (x : L2Line). x.v) here,
                ap (λ (n : ℕ). holds_tag pa (s.l2 n)) p ∙ t,
              )
            ];
          },
          λ h.
              true≢false
                (sym (tag_of_holder pa (update s.l2 i e i) h).0 ∙ ap (λ (x : L2Line). x.v) here),
        )
  ]

  Has-line : (s s' : Backside M) (a j : ℕ) → s'.l2 j ≡ s.l2 j → Has s' a j → Has s a j
  unfolding Has
  Has-line s s' a j e h = ap (holds_tag a) (sym e) ∙ h

  -- A line that is valid now is as it was.
  kept_line : (pa a j : ℕ) (s s' : Backside M) → Fewer pa s s' → Has s' a j → s'.l2 j ≡ s.l2 j
  unfolding Has
  kept_line pa a j s s' fw h = elim (fw.lines j) [
    | inl e ↦ e
    | inr (gone, _) ↦ absurd (true≢false (sym (tag_of_holder a (s'.l2 j) h).0 ∙ gone))
  ]

  Fewer-trans : (pa : ℕ) (s s' s'' : Backside M) → Fewer pa s s' → Fewer pa s' s'' → Fewer pa s s''
  Fewer-trans pa s s' s'' fw fw' = record {
    sets = fw'.sets ∙ fw.sets;
    inert = fw'.inert ∙ fw.inert;
    bus_same = fw'.bus_same ∙ fw.bus_same;
    lines = λ j. elim (fw'.lines j) [
      | inr (gone, h) ↦ inr (gone, Has-line s s' pa j (kept_line pa pa j s s' fw h) h)
      | inl e ↦ elim (fw.lines j) [
        | inl e' ↦ inl (e ∙ e')
        | inr (gone, h) ↦ inr (ap (λ (x : L2Line). x.v) e ∙ gone, h)
      ]
    ];
  }

  both_ways :
      (pa i : ℕ) (s : Backside M)
      → Fewer pa s (invalidate_way pa (i + 1) (invalidate_way pa i s))
        × ((j : ℕ)
            → (j ≡ i) ⊎ (j ≡ i + 1)
            → ¬ Has (invalidate_way pa (i + 1) (invalidate_way pa i s)) pa j)
  both_ways pa i s =
      let s1 = invalidate_way pa i s in
      let (fw, no_i) = Fewer-way pa i s in
      let (fw', no_j) = Fewer-way pa (i + 1) s1 in
      (
        Fewer-trans pa s s1 (invalidate_way pa (i + 1) s1) fw fw',
        λ j p h. elim p [
          | inl e ↦ no_i (
              Has-move s1 pa j i e (
                Has-line s1 (invalidate_way pa (i + 1) s1) pa j
                  (kept_line pa pa j s1 (invalidate_way pa (i + 1) s1) fw' h) h))
          | inr e ↦ no_j (Has-move (invalidate_way pa (i + 1) s1) pa j (i + 1) e h)
        ],
      )

module _ {M : Type 0} (ram : M → ℕ → ℕ) where
  module _ (base : ℕ) (b : Line) (s s' : Backside M) (hb : base < 2 ^ 32) (ok : L2Coherent ram s)
      (sets : s'.l2_sets ≡ s.l2_sets) (inert : s'.l2_inert ≡ s.l2_inert)
      (lines : (j : ℕ) → (s'.l2 j ≡ s.l2 j) ⊎ (((s'.l2 j).v ≡ false) × Has s base j))
      (none_left : (j : ℕ) → ¬ Has s' base j)
      (ram_now : (a : ℕ) → a < 2 ^ 32 → ram s'.bus a ≡ put_line base b (ram s.bus) a) where
    still : (a j : ℕ) → Has s' a j → (s'.l2 j ≡ s.l2 j) × Has s a j
    unfolding Has
    still a j h = elim (lines j) [
      | inl e ↦ (e, Has-line s s' a j e h)
      | inr (gone, _) ↦ absurd (true≢false (sym (tag_of_holder a (s'.l2 j) h).0 ∙ gone))
    ]

    other_block : (a j : ℕ) → a < 2 ^ 32 → Has s' a j → ram s'.bus a ≡ ram s.bus a
    unfolding put_line
    other_block a j ha h =
        ram_now a ha
        ∙ ap (λ (t : Bool). if t then b (bit_and a 31) else ram s.bus a)
            (==_ne (a >>> 5) (base >>> 5) (λ same. none_left j (Has-block ram s' a base j same h)))

    pub purged-Coherent : L2Coherent ram s'
    purged-Coherent = record {
      sized = ap (λ (n : ℕ). n == 0) sets ∙ ok.sized;
      active = inert ∙ ok.active;
      placed = λ j a ha h. InPair-sets s s' sets a j (ok.placed j a ha (still a j h).1);
      unique = λ j k a ha h h'. ok.unique j k a ha (still a j h).1 (still a k h').1;
      known = λ j valid. elim (lines j) [
        | inl e ↦
            subst (λ (x : L2Line). x.tag < 2 ^ 27) (sym e)
              (ok.known j (ap (λ (x : L2Line). x.v) (sym e) ∙ valid))
        | inr (gone, _) ↦ absurd (true≢false (sym valid ∙ gone))
      ];
      clean = λ j a ha h not_dirty.
          let (e, k) = still a j h in
          ap (λ (x : L2Line). x.b (bit_and a 31)) e
          ∙ ok.clean j a ha k (ap (λ (x : L2Line). x.d) (sym e) ∙ not_dirty)
          ∙ sym (other_block a j ha h);
    }

    elsewhere : (a : ℕ) → a < 2 ^ 32 → (a >>> 5) ≢ (base >>> 5) → l2_byte ram s' a ≡ l2_byte ram s a
    unfolding put_line Has
    elsewhere a ha other = elim (l2_hit_cases ram s ok a ha) [
      | inr (no_line, _) ↦
          l2_byte_miss ram s' purged-Coherent a ha (λ j h. no_line j (still a j h).1)
          ∙ ram_now a ha
          ∙ ap (λ (t : Bool). if t then b (bit_and a 31) else ram s.bus a)
              (==_ne (a >>> 5) (base >>> 5) other)
          ∙ sym (l2_byte_miss ram s ok a ha no_line)
      | inl (j, h, _) ↦ elim (lines j) [
        | inr (_, k) ↦
            absurd (other (sym (tag_of_holder a (s.l2 j) h).1 ∙ (tag_of_holder base (s.l2 j) k).1))
        | inl e ↦
            l2_byte_hit ram s' purged-Coherent a j ha (ap (holds_tag a) e ∙ h)
            ∙ ap (λ (x : L2Line). x.b (bit_and a 31)) e
            ∙ sym (l2_byte_hit ram s ok a j ha h)
      ]
    ]

    pub purged_bytes : (a : ℕ) → a < 2 ^ 32 → l2_byte ram s' a ≡ put_line base b (l2_byte ram s) a
    unfolding put_line
    purged_bytes a ha = elim (dec_eq (a >>> 5) (base >>> 5)) [
      | yes same ↦
          let read : ram s'.bus a
              ≡ (if (a >>> 5) == (base >>> 5) then b (bit_and a 31) else ram s.bus a) =
            ram_now a ha in
          let hit = eq→== (a >>> 5) (base >>> 5) same in
          l2_byte_miss ram s' purged-Coherent a ha
            (λ j h. none_left j (Has-block ram s' a base j same h))
          ∙ read
          ∙ ap (λ (t : Bool). if t then b (bit_and a 31) else ram s.bus a) hit
          ∙ ap (λ (t : Bool). if t then b (bit_and a 31) else l2_byte ram s a) (sym hit)
      | no other ↦
          elsewhere a ha other
          ∙ ap (λ (t : Bool). if t then b (bit_and a 31) else l2_byte ram s a)
              (sym (==_ne (a >>> 5) (base >>> 5) other))
    ]

  module _ (bus : Bus M) (law : IsRam bus ram) where
    -- What a push past the array leaves.
    pub pushed :
        (base : ℕ) (b : Line) (s : Backside M)
        → base < 2 ^ 32
        → L2Coherent ram s
        → L2Coherent ram (l2_invalidate base (bus_write_line bus base b s))
          × ((a : ℕ)
              → a < 2 ^ 32
              → l2_byte ram (l2_invalidate base (bus_write_line bus base b s)) a
                ≡ put_line base b (l2_byte ram s) a)
    unfolding l2_invalidate bus_write_line fetch_drop_at Has InPair
    pushed base b s hb ok =
        let s0 : Backside M = fetch_drop_at base (bus_write_line bus base b s) in
        let i : ℕ = first_way base s0 in
        let s' : Backside M = invalidate_way base (i + 1) (invalidate_way base i s0) in
        let (fw, none_here) = both_ways base i s0 in
        let e : l2_invalidate base (bus_write_line bus base b s) ≡ s' =
          ap (λ (t : Bool). if t then s0 else s') ok.sized in
        let none_left : (j : ℕ) → ¬ Has s' base j = λ j h.
          none_here j
            (ok.placed j base hb (Has-line s0 s' base j (kept_line base base j s0 s' fw h) h)) h in
        let ram_now : (a : ℕ) → a < 2 ^ 32 → ram s'.bus a ≡ put_line base b (ram s.bus) a =
          λ a ha. ap (λ (m : M). ram m a) fw.bus_same ∙ law.write_ram base b a s.bus ha in
        subst (After base b s) (sym e) (
          purged-Coherent base b s s' hb ok fw.sets fw.inert fw.lines none_left ram_now,
          purged_bytes base b s s' hb ok fw.sets fw.inert fw.lines none_left ram_now,
        )
      where
        After : ℕ → Line → Backside M → Backside M → Type 0
        After base b s x =
            L2Coherent ram x
            × ((a : ℕ) → a < 2 ^ 32 → l2_byte ram x a ≡ put_line base b (l2_byte ram s) a)
