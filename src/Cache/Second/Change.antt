-- ===== src/Cache/Second/Change.antt =====
-- How a change of one line of the second-level cache (core/src/cache.cpp) shows: a line that goes, and a
-- line that takes a block or new bytes of it.
use open_power_mac.Prelude.{
  ℕ, ◌+◌, ◌-◌, ◌*◌, ◌%◌, ◌^◌, ◌<◌, ◌≡◌, ◌≢◌, ◌⊎◌, sym, ap, ◌∙◌, inl, inr, true, false, bit_and,
  arith, ◌==◌, ◌!=◌, ◌&&◌, if◌then◌else◌, ◌>>>◌, dec_eq, eq→==, ==_ne,
}
use mathlib.Core.Bool.{true≢false}
use open_power_mac.Cache.Lower.{put_line}
use open_power_mac.Cache.Second.Array.{L2Line, Backside, holds_tag, first_way, l2_set_of}
use open_power_mac.Cache.Second.View.{
  has_tag, tag_of_holder, Has, InPair, l2_byte, L2Coherent, l2_hit_cases, l2_byte_hit, l2_byte_miss,
}

l2_set_of_block : (sets a b : ℕ) → (a >>> 5) ≡ (b >>> 5) → l2_set_of sets a ≡ l2_set_of sets b
unfolding l2_set_of
l2_set_of_block sets a b same =
    let mask = if (sets != 0) && (bit_and sets (sets - 1) == 0) then sets - 1 else 0 in
    ap (λ (t : ℕ). if mask != 0 then bit_and t mask else t % sets) same

pub Has-move : {M : Type 0} (s : Backside M) (a j i : ℕ) → j ≡ i → Has s a j → Has s a i
unfolding Has
Has-move s a j i e h = ap (λ (t : ℕ). holds_tag a (s.l2 t)) (sym e) ∙ h

-- The sets are those of the size.
pub InPair-sets :
    {M : Type 0} (s s' : Backside M)
    → s'.l2_sets ≡ s.l2_sets
    → (a j : ℕ) → InPair s a j
    → InPair s' a j
unfolding InPair
InPair-sets s s' sets a j h =
    let same : first_way a s ≡ first_way a s' = ap (λ (n : ℕ). l2_set_of n a * 2) (sym sets) in
    elim h [ inl e ↦ inl (e ∙ same) | inr e ↦ inr (e ∙ ap (λ (t : ℕ). t + 1) same) ]

module _ {M : Type 0} (ram : M → ℕ → ℕ) where
  -- All lines but one, and the size, are as they were.
  pub record Changed (i : ℕ) (s s' : Backside M) : Type 0 where
    pub sets : s'.l2_sets ≡ s.l2_sets
    pub inert : s'.l2_inert ≡ s.l2_inert
    pub others : (j : ℕ) → j ≢ i → s'.l2 j ≡ s.l2 j

  module _ (i : ℕ) (s s' : Backside M) (ch : Changed i s s') where
    pub pair_kept : (a j : ℕ) → InPair s a j → InPair s' a j
    pair_kept = InPair-sets s s' ch.sets

    pub Has-kept : (a j : ℕ) → j ≢ i → Has s a j → Has s' a j
    unfolding Has
    Has-kept a j ne h = ap (holds_tag a) (ch.others j ne) ∙ h

    pub had_before : (a j : ℕ) → j ≢ i → Has s' a j → Has s a j
    unfolding Has
    had_before a j ne h = ap (holds_tag a) (sym (ch.others j ne)) ∙ h

  -- A line goes, and what it had is on the bus; the other bytes of the bus stay.
  pub record Gone (i : ℕ) (s s' : Backside M) : Type 0 where
    pub changed : Changed i s s'
    pub empty : (s'.l2 i).v ≡ false
    pub out : (a : ℕ) → a < 2 ^ 32 → Has s a i → ram s'.bus a ≡ (s.l2 i).b (bit_and a 31)
    pub rest : (a : ℕ) → a < 2 ^ 32 → ¬ Has s a i → ram s'.bus a ≡ ram s.bus a

  module _ (i : ℕ) (s s' : Backside M) (ok : L2Coherent ram s) (go : Gone i s s') where
    not_there : (a : ℕ) → ¬ Has s' a i
    unfolding Has
    not_there a h = true≢false (sym (tag_of_holder a (s'.l2 i) h).0 ∙ go.empty)

    pub was : (a j : ℕ) → Has s' a j → (j ≢ i) × Has s a j
    unfolding Has
    was a j h =
        let ne : j ≢ i = λ e. not_there a (ap (λ (t : ℕ). holds_tag a (s'.l2 t)) (sym e) ∙ h) in
        (ne, had_before i s s' go.changed a j ne h)

    ram_kept : (a j : ℕ) → a < 2 ^ 32 → Has s' a j → ram s'.bus a ≡ ram s.bus a
    ram_kept a j ha h = let (ne, k) = was a j h in go.rest a ha (λ k'. ne (ok.unique j i a ha k k'))

    pub Gone-Coherent : L2Coherent ram s'
    Gone-Coherent = record {
      sized = ap (λ (n : ℕ). n == 0) ((go.changed).sets) ∙ ok.sized;
      active = (go.changed).inert ∙ ok.active;
      placed = λ j a ha h. pair_kept i s s' go.changed a j (ok.placed j a ha (was a j h).1);
      unique = λ j k a ha h h'. ok.unique j k a ha (was a j h).1 (was a k h').1;
      known = λ j valid. still_known j valid (dec_eq j i);
      clean = λ j a ha h not_dirty.
          let (ne, k) = was a j h in
          let e = (go.changed).others j ne in
          ap (λ (x : L2Line). x.b (bit_and a 31)) e
          ∙ ok.clean j a ha k (ap (λ (x : L2Line). x.d) (sym e) ∙ not_dirty)
          ∙ sym (ram_kept a j ha h);
    }
      where
        still_known : (j : ℕ) → (s'.l2 j).v ≡ true → Dec (j ≡ i) → (s'.l2 j).tag < 2 ^ 27
        still_known j valid (yes e) =
            absurd (true≢false (sym valid ∙ ap (λ (t : ℕ). (s'.l2 t).v) e ∙ go.empty))
        still_known j valid (no ne) =
            let e = (go.changed).others j ne in
            let before = ok.known j (ap (λ (x : L2Line). x.v) (sym e) ∙ valid) in
            omega (arith, ap (λ (x : L2Line). x.tag) e, before)

    pub Gone_bytes : (a : ℕ) → a < 2 ^ 32 → l2_byte ram s' a ≡ l2_byte ram s a
    Gone_bytes a ha = elim (l2_hit_cases ram s ok a ha) [
      | inr (no_way, _) ↦
          l2_byte_miss ram s' Gone-Coherent a ha (λ j h. no_way j (was a j h).1)
          ∙ go.rest a ha (no_way i)
          ∙ sym (l2_byte_miss ram s ok a ha no_way)
      | inl (j, h, _) ↦ elim (dec_eq j i) [
        | no ne ↦
            l2_byte_hit ram s' Gone-Coherent a j ha (Has-kept i s s' go.changed a j ne h)
            ∙ ap (λ (x : L2Line). x.b (bit_and a 31)) ((go.changed).others j ne)
            ∙ sym (l2_byte_hit ram s ok a j ha h)
        | yes e ↦
            l2_byte_miss ram s' Gone-Coherent a ha
              (λ k h'. (was a k h').0 (ok.unique k j a ha (was a k h').1 h ∙ e))
            ∙ go.out a ha (Has-move s a j i e h)
            ∙ ap (λ (t : ℕ). (s.l2 t).b (bit_and a 31)) (sym e)
            ∙ sym (l2_byte_hit ram s ok a j ha h)
      ]
    ]

  -- A line takes the block of an address, or new bytes of it, and the bus keeps its bytes.
  pub record Taken (pa i : ℕ) (s s' : Backside M) : Type 0 where
    pub changed : Changed i s s'
    pub valid : (s'.l2 i).v ≡ true
    pub tag : (s'.l2 i).tag ≡ (pa >>> 5)
    pub same_ram : (a : ℕ) → a < 2 ^ 32 → ram s'.bus a ≡ ram s.bus a
    pub in_set : InPair s pa i
    -- The line had nothing, or this block; no other line had it.
    pub own : (a : ℕ) → a < 2 ^ 32 → Has s a i → (a >>> 5) ≡ (pa >>> 5)
    pub only : (j : ℕ) → Has s pa j → j ≡ i
    pub fresh :
        (s'.l2 i).d ≡ false
        → (a : ℕ) → a < 2 ^ 32
        → (a >>> 5) ≡ (pa >>> 5)
        → (s'.l2 i).b (bit_and a 31) ≡ ram s.bus a

  -- The same block has the same lines and the same set.
  pub Has-block : (s : Backside M) (a pa j : ℕ) → (a >>> 5) ≡ (pa >>> 5) → Has s a j → Has s pa j
  unfolding Has
  Has-block s a pa j same h =
      let (v, t) = tag_of_holder a (s.l2 j) h in has_tag pa (s.l2 j) v (t ∙ same)

  InPair-block :
      (s : Backside M) (a pa j : ℕ) → (a >>> 5) ≡ (pa >>> 5) → InPair s pa j → InPair s a j
  unfolding InPair
  InPair-block s a pa j same h =
      let same_set : l2_set_of s.l2_sets pa * 2 ≡ l2_set_of s.l2_sets a * 2 =
        ap (λ (n : ℕ). n * 2) (l2_set_of_block s.l2_sets pa a (sym same)) in
      elim h [ inl e ↦ inl (e ∙ same_set) | inr e ↦ inr (e ∙ ap (λ (n : ℕ). n + 1) same_set) ]

  InPair-move : (s : Backside M) (a i j : ℕ) → i ≡ j → InPair s a i → InPair s a j
  unfolding InPair
  InPair-move s a i j e h = elim h [ inl p ↦ inl (sym e ∙ p) | inr p ↦ inr (sym e ∙ p) ]

  module _ (pa i : ℕ) (s s' : Backside M) (hp : pa < 2 ^ 32) (ok : L2Coherent ram s)
      (tk : Taken pa i s s') where
    Has-now : (a : ℕ) → (a >>> 5) ≡ (pa >>> 5) → Has s' a i
    unfolding Has
    Has-now a same = has_tag a (s'.l2 i) tk.valid (tk.tag ∙ sym same)

    one_of : (a j : ℕ) → Has s' a j → ((j ≡ i) × ((a >>> 5) ≡ (pa >>> 5))) ⊎ ((j ≢ i) × Has s a j)
    unfolding Has
    one_of a j h = elim (dec_eq j i) [
      | no ne ↦ inr (ne, had_before i s s' tk.changed a j ne h)
      | yes e ↦ inl (e, sym (tag_of_holder a (s'.l2 i) (Has-move s' a j i e h)).1 ∙ tk.tag)
    ]

    pub Taken-Coherent : L2Coherent ram s'
    Taken-Coherent = record {
      sized = ap (λ (n : ℕ). n == 0) ((tk.changed).sets) ∙ ok.sized;
      active = (tk.changed).inert ∙ ok.active;
      placed = λ j a ha h. elim (one_of a j h) [
        | inl (e, same) ↦
            pair_kept i s s' tk.changed a j
              (InPair-move s a i j (sym e) (InPair-block s a pa i same tk.in_set))
        | inr (_, k) ↦ pair_kept i s s' tk.changed a j (ok.placed j a ha k)
      ];
      unique = λ j k a ha h h'. one_line j k a ha (one_of a j h) (one_of a k h');
      known = λ j valid. still_known j valid (dec_eq j i);
      clean = λ j a ha h not_dirty. still_clean j a ha not_dirty (one_of a j h);
    }
      where
        one_line :
            (j k a : ℕ)
            → a < 2 ^ 32
            → ((j ≡ i) × ((a >>> 5) ≡ (pa >>> 5))) ⊎ ((j ≢ i) × Has s a j)
            → ((k ≡ i) × ((a >>> 5) ≡ (pa >>> 5))) ⊎ ((k ≢ i) × Has s a k)
            → j ≡ k
        one_line j k a ha (inl (e, _)) (inl (e', _)) = e ∙ sym e'
        one_line j k a ha (inl (e, same)) (inr (ne, h)) =
            absurd (ne (tk.only k (Has-block s a pa k same h)))
        one_line j k a ha (inr (ne, h)) (inl (e, same)) =
            absurd (ne (tk.only j (Has-block s a pa j same h)))
        one_line j k a ha (inr (_, h)) (inr (_, h')) = ok.unique j k a ha h h'

        still_known : (j : ℕ) → (s'.l2 j).v ≡ true → Dec (j ≡ i) → (s'.l2 j).tag < 2 ^ 27
        still_known j valid (yes e) = omega (arith, ap (λ (t : ℕ). (s'.l2 t).tag) e, tk.tag, hp)
        still_known j valid (no ne) =
            let e = (tk.changed).others j ne in
            let before = ok.known j (ap (λ (x : L2Line). x.v) (sym e) ∙ valid) in
            omega (arith, ap (λ (x : L2Line). x.tag) e, before)

        still_clean :
            (j a : ℕ)
            → a < 2 ^ 32
            → (s'.l2 j).d ≡ false
            → ((j ≡ i) × ((a >>> 5) ≡ (pa >>> 5))) ⊎ ((j ≢ i) × Has s a j)
            → (s'.l2 j).b (bit_and a 31) ≡ ram s'.bus a
        still_clean j a ha not_dirty (inl (e, same)) =
            ap (λ (t : ℕ). (s'.l2 t).b (bit_and a 31)) e
            ∙ tk.fresh (ap (λ (t : ℕ). (s'.l2 t).d) (sym e) ∙ not_dirty) a ha same
            ∙ sym (tk.same_ram a ha)
        still_clean j a ha not_dirty (inr (ne, h)) =
            let e = (tk.changed).others j ne in
            ap (λ (x : L2Line). x.b (bit_and a 31)) e
            ∙ ok.clean j a ha h (ap (λ (x : L2Line). x.d) (sym e) ∙ not_dirty)
            ∙ sym (tk.same_ram a ha)

    pub Taken_bytes :
        (a : ℕ) → a < 2 ^ 32 → l2_byte ram s' a ≡ put_line pa ((s'.l2 i).b) (l2_byte ram s) a
    unfolding put_line
    Taken_bytes a ha = elim (dec_eq (a >>> 5) (pa >>> 5)) [
      | yes same ↦
          rw (eq→== (a >>> 5) (pa >>> 5) same)
            (l2_byte_hit ram s' Taken-Coherent a i ha (Has-now a same))
      | no other ↦ rw (==_ne (a >>> 5) (pa >>> 5) other) (elim (l2_hit_cases ram s ok a ha) [
        | inr (no_way, _) ↦
            l2_byte_miss ram s' Taken-Coherent a ha
              (λ j h. elim (one_of a j h) [ inl (_, same) ↦ other same | inr (_, k) ↦ no_way j k ])
            ∙ tk.same_ram a ha
            ∙ sym (l2_byte_miss ram s ok a ha no_way)
        | inl (j, h, _) ↦
            let ne : j ≢ i = λ e. other (tk.own a ha (Has-move s a j i e h)) in
            l2_byte_hit ram s' Taken-Coherent a j ha (Has-kept i s s' tk.changed a j ne h)
            ∙ ap (λ (x : L2Line). x.b (bit_and a 31)) ((tk.changed).others j ne)
            ∙ sym (l2_byte_hit ram s ok a j ha h)
      ])
    ]
