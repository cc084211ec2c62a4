-- ===== src/Cache/Second/Install.antt =====
-- A block installed in the second-level cache (l2Install of core/src/cache.cpp): the flat memory that the
-- array keeps has the block replaced.
use open_power_mac.Prelude.{
  ℕ, ◌^◌, ◌<◌, ◌≡◌, refl, sym, ap, ◌∙◌, inl, inr, Bool, true, false, Option, none, some, not,
  bit_and, ◌==◌, if◌then◌else◌, ◌>>>◌, subst, update_same,
}
use mathlib.Core.Bool.{true≢false}
use open_power_mac.Cpu.{CpuState}
use open_power_mac.Cache.Bytes.{Line}
use open_power_mac.Cache.Lower.{put_line, put_line_cong}
use open_power_mac.Cache.Second.Array.{
  Bus, L2Line, Backside, l2_hit, l2_on, l2_slot, bus_write_line, l2_put, l2_install, l2_resize,
  fetch_drop_at, put_entry,
}
use open_power_mac.Cache.Second.View.{IsRam, Has, l2_byte, line_byte, L2Coherent, l2_hit_cases}
use open_power_mac.Cache.Second.Change.{Gone-Coherent, Gone_bytes, Taken-Coherent, Taken_bytes}
use open_power_mac.Cache.Second.Backing.{
  refetched-Coherent, put_over, emptied-Gone, put_new, put_new_line,
}

module _ {M : Type 0} (bus : Bus M) (ram : M → ℕ → ℕ) (law : IsRam bus ram) where
  -- A block has been replaced.
  pub record Stored (base : ℕ) (b : Line) (s s' : Backside M) : Type 0 where
    pub coherent : L2Coherent ram s'
    pub bytes : (a : ℕ) → a < 2 ^ 32 → l2_byte ram s' a ≡ put_line base b (l2_byte ram s) a

  put_over-Stored :
      (base i : ℕ) (b : Line) (s : Backside M)
      → base < 2 ^ 32
      → L2Coherent ram s
      → Has s base i
      → Stored base b s (l2_put bus base b true (some i) s)
  unfolding l2_put put_entry
  put_over-Stored base i b s hb ok h =
      let tk = put_over bus ram law base i b s hb ok h in
      record {
        coherent = Taken-Coherent ram base i s _ hb ok tk;
        bytes = λ a ha.
            Taken_bytes ram base i s _ hb ok tk a ha
            ∙ ap (λ (x : L2Line). put_line base x.b (l2_byte ram s) a) (update_same s.l2 i _);
      }

  put_new-Stored :
      (base : ℕ) (b : Line) (dirty : Bool) (s : Backside M)
      → base < 2 ^ 32
      → L2Coherent ram s
      → ((j : ℕ) → ¬ Has s base j)
      → (dirty ≡ false
          → (a : ℕ) → a < 2 ^ 32
          → (a >>> 5) ≡ (base >>> 5)
          → b (bit_and a 31) ≡ ram s.bus a)
      → Stored base b s (l2_put bus base b dirty none s)
  unfolding l2_put put_entry
  put_new-Stored base b dirty s hb ok no_line clean =
      let i = l2_slot base s in
      let go = emptied-Gone bus ram law i s ok in
      let ok1 = Gone-Coherent ram i s _ ok go in
      let tk = put_new bus ram law base b dirty s hb ok no_line clean in
      record {
        coherent = Taken-Coherent ram base i _ _ hb ok1 tk;
        bytes = λ a ha.
            Taken_bytes ram base i _ _ hb ok1 tk a ha
            ∙ put_line_cong base _ _ (l2_byte ram s) a (Gone_bytes ram i s _ ok go a ha)
            ∙ ap (λ (x : Line). put_line base x (l2_byte ram s) a)
                (put_new_line bus ram law base b dirty s);
      }

  put-Stored :
      (base : ℕ) (b : Line) (s : Backside M)
      → base < 2 ^ 32
      → L2Coherent ram s
      → Stored base b s (l2_put bus base b true (l2_hit base s) s)
  put-Stored base b s hb ok = elim (l2_hit_cases ram s ok base hb) [
    | inl (i, h, e) ↦
        subst (λ (r : Option ℕ). Stored base b s (l2_put bus base b true r s)) (sym e)
          (put_over-Stored base i b s hb ok h)
    | inr (no_line, e) ↦
        subst (λ (r : Option ℕ). Stored base b s (l2_put bus base b true r s)) (sym e)
          (put_new-Stored base b true s hb ok no_line (λ f. absurd (true≢false f)))
  ]

  refetched-Stored :
      (base : ℕ) (b : Line) (f : ℕ → ℕ) (s s' : Backside M)
      → Stored base b (record s { fetch_base = f }) s'
      → Stored base b s s'
  unfolding l2_byte line_byte l2_hit
  refetched-Stored base b f s s' st = record { coherent = st.coherent; bytes = st.bytes }

  module _ (st : CpuState) (on : l2_on st ≡ true) where
    -- An installation in an array that has a size and is not inert.
    installed :
        (base : ℕ) (b : Line) (dirty : Bool) (f : ℕ → ℕ) (s : Backside M)
        → L2Coherent ram s
        → (if dirty then fetch_drop_at base s else s) ≡ record s { fetch_base = f }
        → l2_install bus st base b dirty s
          ≡ l2_put bus base b dirty
              (l2_hit base (record s { fetch_base = f }))
              (record s { fetch_base = f })
    unfolding l2_install
    installed base b dirty f s ok e =
        let s1 : Backside M = record s { fetch_base = f } in
        ap
          (λ (t : Bool).
            if not t then s else install_on (if dirty then fetch_drop_at base s else s))
          on
        ∙ ap install_on e
        ∙ ap
            (λ (t : Bool).
              if t
              then (if dirty then bus_write_line bus base b s1 else s1)
              else sized_put (s1.l2_sets == 0) s1)
            ok.active
        ∙ ap (λ (t : Bool). sized_put t s1) ok.sized
      where
        sized_put : Bool → Backside M → Backside M
        sized_put t s1 =
            let s2 = if t then l2_resize bus st s1 else s1 in
            l2_put bus base b dirty (l2_hit base s2) s2

        install_on : Backside M → Backside M
        install_on s1 =
            if s1.l2_inert
            then (if dirty then bus_write_line bus base b s1 else s1)
            else sized_put (s1.l2_sets == 0) s1

    pub install_dirty :
        (base : ℕ) (b : Line) (s : Backside M)
        → base < 2 ^ 32
        → L2Coherent ram s
        → Stored base b s (l2_install bus st base b true s)
    unfolding fetch_drop_at
    install_dirty base b s hb ok =
        let f : ℕ → ℕ = (fetch_drop_at base s).fetch_base in
        let s1 : Backside M = record s { fetch_base = f } in
        let done : Stored base b s1 (l2_put bus base b true (l2_hit base s1) s1) =
          put-Stored base b s1 hb (refetched-Coherent bus ram law f s ok) in
        subst (Stored base b s) (sym (installed base b true f s ok refl))
          (refetched-Stored base b f s _ done)

    pub install_clean :
        (base : ℕ) (b : Line) (s : Backside M)
        → base < 2 ^ 32
        → L2Coherent ram s
        → l2_hit base s ≡ none
        → ((j : ℕ) → ¬ Has s base j)
        → ((a : ℕ) → a < 2 ^ 32 → (a >>> 5) ≡ (base >>> 5) → b (bit_and a 31) ≡ ram s.bus a)
        → Stored base b s (l2_install bus st base b false s)
    install_clean base b s hb ok missed no_line clean =
        subst (Stored base b s)
          (sym (
            installed base b false s.fetch_base s ok refl
            ∙ ap (λ (r : Option ℕ). l2_put bus base b false r s) missed))
          (put_new-Stored base b false s hb ok no_line (λ _. clean))
