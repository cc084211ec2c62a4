-- ===== src/Cache/Second/Memory.antt =====
-- The second-level cache switched on as the memory below the first level (core/src/cache.cpp): it is a
-- flat memory of bytes under the fills, the castouts and the pushes of the first level.
use open_power_mac.Prelude.{
  ℕ, ◌^◌, ◌<◌, ◌≡◌, refl, sym, ap, ◌∙◌, inl, inr, Bool, true, false, Option, none, some, not, ◌&&◌,
  bit_and, ◌==◌, ◌!=◌, if◌then◌else◌, ◌>>>◌, has, subst, update_same, arith,
}
use open_power_mac.Cpu.{CpuState}
use open_power_mac.Cache.Bytes.{Line}
use open_power_mac.Cache.Lower.{IsBacking, put_line_cong}
use open_power_mac.Cache.Serve.{put_line_same}
use open_power_mac.Cache.Second.Array.{
  Bus, L2Line, Backside, l2_hit, l2_on, l2_usable, l2_find, found_line, l2_age, bus_write_line,
  l2_install, l2_read_line, l2_invalidate, fill_from, reload, castout, push, fetch_drop_at,
  backside, put_entry,
}
use open_power_mac.Cache.Second.View.{
  IsRam, Has, InPair, l2_byte, line_byte, L2Coherent, l2_hit_cases, l2_byte_hit, l2_byte_miss,
}
use open_power_mac.Cache.Second.Change.{Taken-Coherent, Taken_bytes, Has-block}
use open_power_mac.Cache.Second.Purge.{pushed}
use open_power_mac.Cache.Second.Backing.{refetched-Coherent, aged}
use open_power_mac.Cache.Second.Install.{Stored, install_dirty, install_clean}

module _ {M : Type 0} (bus : Bus M) (ram : M → ℕ → ℕ) (law : IsRam bus ram) (st : CpuState)
    (on : l2_on st ≡ true) where
  -- A fill: the block as the memory has it, and the memory unchanged.
  pub record Reloaded (base : ℕ) (s : Backside M) (r : Line × Backside M) : Type 0 where
    pub coherent : L2Coherent ram (r.1)
    pub line :
        (a : ℕ) → a < 2 ^ 32 → (a >>> 5) ≡ (base >>> 5) → (r.0) (bit_and a 31) ≡ l2_byte ram s a
    pub bytes : (a : ℕ) → a < 2 ^ 32 → l2_byte ram (r.1) a ≡ l2_byte ram s a

  -- What `reload` does once the array has been searched.
  abbrev after_search : ℕ → Backside M → Option ℕ → Line × Backside M
  after_search base s r = fill_from bus st base (found_line r (l2_age r s)) (l2_age r s)

  reload_hit :
      (base i : ℕ) (s : Backside M)
      → base < 2 ^ 32
      → L2Coherent ram s
      → Has s base i
      → Reloaded base s (after_search base s (some i))
  unfolding fill_from l2_age put_entry found_line
  reload_hit base i s hb ok h =
      let tk = aged bus ram law base i s hb ok h in
      let s' = l2_age (some i) s in
      let same_line : (s'.l2 i).b ≡ (s.l2 i).b = ap (λ (x : L2Line). x.b) (update_same s.l2 i _) in
      let line : (a : ℕ)
          → a < 2 ^ 32
          → (a >>> 5) ≡ (base >>> 5)
          → (s'.l2 i).b (bit_and a 31) ≡ l2_byte ram s a =
        λ a ha same.
          ap (λ (x : Line). x (bit_and a 31)) same_line
          ∙ sym (l2_byte_hit ram s ok a i ha (Has-block ram s base a i (sym same) h)) in
      record {
        coherent = Taken-Coherent ram base i s s' hb ok tk;
        line = line;
        bytes = λ a ha.
            Taken_bytes ram base i s s' hb ok tk a ha
            ∙ put_line_same base (s'.l2 i).b (l2_byte ram s) a (line a ha);
      }

  -- A burst read changes no byte of the bus.
  read-Coherent :
      (base : ℕ) (s : Backside M)
      → L2Coherent ram s
      → L2Coherent ram (record s { bus = (bus.read_line32 base s.bus).1 })
  unfolding Has InPair
  read-Coherent base s ok = record {
    sized = ok.sized;
    active = ok.active;
    placed = ok.placed;
    unique = ok.unique;
    known = ok.known;
    clean = λ i a ha h not_dirty. ok.clean i a ha h not_dirty ∙ sym (law.read_ram base a s.bus ha);
  }

  read_bytes :
      (base a : ℕ) (s : Backside M)
      → a < 2 ^ 32
      → l2_byte ram (record s { bus = (bus.read_line32 base s.bus).1 }) a ≡ l2_byte ram s a
  unfolding l2_byte line_byte l2_hit
  read_bytes base a s ha = by_search (l2_hit a s)
    where
      by_search :
          (r : Option ℕ)
          → line_byte ram (record s { bus = (bus.read_line32 base s.bus).1 }) a r
            ≡ line_byte ram s a r
      by_search none = law.read_ram base a s.bus ha
      by_search (some i) = refl

  reload_miss :
      (base : ℕ) (s : Backside M)
      → base < 2 ^ 32
      → L2Coherent ram s
      → l2_hit base s ≡ none
      → ((j : ℕ) → ¬ Has s base j)
      → Reloaded base s (after_search base s none)
  unfolding fill_from l2_age l2_hit Has found_line
  reload_miss base s hb ok missed no_line =
      let (b, m) = bus.read_line32 base s.bus in
      let s1 : Backside M = record s { bus = m } in
      let line : (a : ℕ) → a < 2 ^ 32 → (a >>> 5) ≡ (base >>> 5) → b (bit_and a 31) ≡ ram s.bus a =
        λ a ha same. law.read_line base a s.bus ha same in
      let no_way : (a : ℕ) → (a >>> 5) ≡ (base >>> 5) → (j : ℕ) → ¬ Has s a j =
        λ a same j h. no_line j (Has-block ram s a base j same h) in
      let stored =
        install_clean bus ram law st on base b s1 hb (read-Coherent base s ok) missed no_line
          (λ a ha same. line a ha same ∙ sym (law.read_ram base a s.bus ha)) in
      let flat : (a : ℕ)
          → a < 2 ^ 32
          → (a >>> 5) ≡ (base >>> 5)
          → b (bit_and a 31) ≡ l2_byte ram s a =
        λ a ha same. line a ha same ∙ sym (l2_byte_miss ram s ok a ha (no_way a same)) in
      record {
        coherent = stored.coherent;
        line = flat;
        bytes = λ a ha.
            stored.bytes a ha
            ∙ put_line_cong base b _ (l2_byte ram s) a (read_bytes base a s ha)
            ∙ put_line_same base b (l2_byte ram s) a (flat a ha);
      }

  not_none : (n : ℕ) → (n == 0) ≡ false → (n != 0) ≡ true
  not_none n h = ground arith

  usable : (s : Backside M) → L2Coherent ram s → l2_usable st s ≡ true
  usable s ok =
      ap (λ (t : Bool). t && (s.l2_sets != 0) && not s.l2_inert) on
      ∙ ap (λ (t : Bool). t && not s.l2_inert) (not_none s.l2_sets ok.sized)
      ∙ ap not ok.active

  reloaded :
      (base : ℕ) (s : Backside M)
      → base < 2 ^ 32
      → L2Coherent ram s
      → Reloaded base s (reload bus st base s)
  unfolding reload l2_read_line l2_find
  reloaded base s hb ok =
      let searched : reload bus st base s ≡ after_search base s (l2_hit base s) =
        ap
          (λ (t : Bool).
            let f : Option ℕ × Backside M =
              if t then (l2_hit base s, l2_age (l2_hit base s) s) else (none, s) in
            fill_from bus st base (found_line (f.0) (f.1)) (f.1))
          (usable s ok) in
      subst (Reloaded base s) (sym searched) (elim (l2_hit_cases ram s ok base hb) [
        | inl (i, h, e) ↦
            subst (λ (r : Option ℕ). Reloaded base s (after_search base s r)) (sym e)
              (reload_hit base i s hb ok h)
        | inr (no_line, e) ↦
            subst (λ (r : Option ℕ). Reloaded base s (after_search base s r)) (sym e)
              (reload_miss base s hb ok e no_line)
      ])

  casted :
      (base : ℕ) (b : Line) (s : Backside M)
      → base < 2 ^ 32
      → L2Coherent ram s
      → Stored bus ram law base b s (castout bus st base b s)
  unfolding castout
  casted base b s hb ok =
      subst (Stored bus ram law base b s)
        (sym (
          ap
            (λ (t : Bool).
              if t then l2_install bus st base b true s else bus_write_line bus base b s)
            on))
        (install_dirty bus ram law st on base b s hb ok)

  pushed_out :
      (base : ℕ) (b : Line) (s : Backside M)
      → base < 2 ^ 32
      → L2Coherent ram s
      → Stored bus ram law base b s (push bus st base b s)
  unfolding push
  pushed_out base b s hb ok = by_mode (l2_on st && has st.l2cr 0x4_0000)
    where
      by_mode :
          (t : Bool)
          → Stored bus ram law base b s (
              if t
              then l2_install bus st base b true s
              else l2_invalidate base (bus_write_line bus base b s))
      by_mode true = install_dirty bus ram law st on base b s hb ok
      by_mode false =
          let (c, bytes) = pushed ram bus law base b s hb ok in
          record { coherent = c; bytes = bytes }

  -- The second level, switched on, sized and not inert, over a bus that is a flat memory of bytes, is a
  -- flat memory for the first level: a fill returns the block and changes no byte, a castout and a push
  -- replace the block and no other byte, and a drop of a fetched block changes none.
  pub backside-IsBacking : IsBacking (backside bus st) (L2Coherent ram) (l2_byte ram)
  unfolding backside fetch_drop_at l2_byte l2_hit line_byte
  backside-IsBacking = record {
    reload_line = λ base a s hb ok ha same. (reloaded base s hb ok).line a ha same;
    reload_view = λ base a s hb ok ha. (reloaded base s hb ok).bytes a ha;
    reload-Ok = λ base s hb ok. (reloaded base s hb ok).coherent;
    castout_view = λ base b a s hb ok ha. (casted base b s hb ok).bytes a ha;
    castout-Ok = λ base b s hb ok. (casted base b s hb ok).coherent;
    push_view = λ base b a s hb ok ha. (pushed_out base b s hb ok).bytes a ha;
    push-Ok = λ base b s hb ok. (pushed_out base b s hb ok).coherent;
    drop_view = λ pa a s ok ha. refl;
    drop-Ok = λ pa s ok. refetched-Coherent bus ram law _ s ok;
  }
