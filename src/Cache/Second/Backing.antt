-- ===== src/Cache/Second/Backing.antt =====
-- The second-level cache switched on (core/src/cache.cpp) keeps a flat memory of bytes for the first level:
-- the castouts, the fills and the pushes of the first level are reads and writes of whole blocks of it.
use open_power_mac.Prelude.{
  ℕ, ◌+◌, ◌^◌, ◌<◌, ◌≡◌, ◌⊎◌, refl, sym, ap, ◌∙◌, inl, inr, Bool, true, false, none, some, not,
  ◌&&◌, bit_and, arith, if◌then◌else◌, ◌>>>◌, eq→==, ==_ne, shl32, u32, leb, update, update_same,
  update_other,
}
use mathlib.Core.Bool.{true≢false}
use open_power_mac.Cache.Bytes.{Line}
use open_power_mac.Cache.Lower.{put_line}
use open_power_mac.Cache.Second.Array.{
  Bus, L2Line, Backside, first_way, put_entry, l2_age, l2_slot, bus_write_line, l2_put,
  fetch_drop_at,
}
use open_power_mac.Cache.Second.View.{IsRam, has_tag, tag_of_holder, Has, InPair, L2Coherent}
use open_power_mac.Cache.Second.Change.{pair_kept, Gone, was, Taken, Has-block}

module _ {M : Type 0} (bus : Bus M) (ram : M → ℕ → ℕ) (law : IsRam bus ram) where
  -- The fetch buffer is no part of the memory.
  pub refetched-Coherent :
      (f : ℕ → ℕ) (s : Backside M) → L2Coherent ram s → L2Coherent ram (record s { fetch_base = f })
  unfolding Has InPair
  refetched-Coherent f s ok = record {
    sized = ok.sized;
    active = ok.active;
    placed = ok.placed;
    unique = ok.unique;
    known = ok.known;
    clean = ok.clean;
  }

  -- The age of a line that is found.
  pub aged :
      (pa i : ℕ) (s : Backside M)
      → pa < 2 ^ 32
      → L2Coherent ram s
      → Has s pa i
      → Taken ram pa i s (l2_age (some i) s)
  unfolding l2_age put_entry Has
  aged pa i s hp ok h =
      let now = u32 (s.l2_clock + 1) in
      let (v, t) = tag_of_holder pa (s.l2 i) h in
      let here = update_same s.l2 i (record (s.l2 i) { age = now }) in
      record {
        changed = record { sets = refl; inert = refl; others = λ j ne. update_other s.l2 i j _ ne };
        valid = ap (λ (x : L2Line). x.v) here ∙ v;
        tag = ap (λ (x : L2Line). x.tag) here ∙ t;
        same_ram = λ a ha. refl;
        in_set = ok.placed i pa hp h;
        own = λ a ha k. sym (tag_of_holder a (s.l2 i) k).1 ∙ t;
        only = λ j k. ok.unique j i pa hp k h;
        fresh = λ not_dirty a ha same.
            ap (λ (x : L2Line). x.b (bit_and a 31)) here
            ∙ ok.clean i a ha (Has-block ram s pa a i (sym same) h)
                (ap (λ (x : L2Line). x.d) (sym here) ∙ not_dirty);
      }

  -- A modified block over the copy that the cache has.
  pub put_over :
      (pa i : ℕ) (b : Line) (s : Backside M)
      → pa < 2 ^ 32
      → L2Coherent ram s
      → Has s pa i
      → Taken ram pa i s (l2_put bus pa b true (some i) s)
  unfolding l2_put put_entry Has
  put_over pa i b s hp ok h =
      let now = u32 (s.l2_clock + 1) in
      let (v, t) = tag_of_holder pa (s.l2 i) h in
      let e : L2Line = record { v = true; d = true; tag = pa >>> 5; age = now; b = b } in
      let here : update s.l2 i e i ≡ e = update_same s.l2 i e in
      record {
        changed = record { sets = refl; inert = refl; others = λ j ne. update_other s.l2 i j _ ne };
        valid = ap (λ (x : L2Line). x.v) here;
        tag = ap (λ (x : L2Line). x.tag) here;
        same_ram = λ a ha. refl;
        in_set = ok.placed i pa hp h;
        own = λ a ha k. sym (tag_of_holder a (s.l2 i) k).1 ∙ t;
        only = λ j k. ok.unique j i pa hp k h;
        fresh = λ not_dirty. absurd (true≢false (ap (λ (x : L2Line). x.d) (sym here) ∙ not_dirty));
      }

  -- The victim, written back when it is modified.
  cast_victim : ℕ → Backside M → Backside M
  cast_victim i s =
      let old = s.l2 i in if old.v && old.d then bus_write_line bus (shl32 old.tag 5) old.b s else s

  pub emptied : ℕ → Backside M → Backside M
  emptied i s = put_entry i (record (s.l2 i) { v = false }) (cast_victim i s)

  cast_victim_l2 :
      (i : ℕ) (s : Backside M)
      → ((cast_victim i s).l2 ≡ s.l2)
        × ((cast_victim i s).l2_sets ≡ s.l2_sets)
        × ((cast_victim i s).l2_inert ≡ s.l2_inert)
  unfolding cast_victim bus_write_line fetch_drop_at
  cast_victim_l2 i s = either ((s.l2 i).v && (s.l2 i).d)
    where
      either :
          (t : Bool)
          → ((if t then bus_write_line bus (shl32 (s.l2 i).tag 5) (s.l2 i).b s else s).l2 ≡ s.l2)
            × ((if t then bus_write_line bus (shl32 (s.l2 i).tag 5) (s.l2 i).b s else s).l2_sets
                ≡ s.l2_sets)
            × ((if t then bus_write_line bus (shl32 (s.l2 i).tag 5) (s.l2 i).b s else s).l2_inert
                ≡ s.l2_inert)
      either true = (refl, refl, refl)
      either false = (refl, refl, refl)

  module _ (i : ℕ) (s : Backside M) (ok : L2Coherent ram s) where
    tag_base : (t : ℕ) → t < 2 ^ 27 → shl32 t 5 >>> 5 ≡ t
    tag_base t h = omega arith

    -- What the bus has of a line that goes.
    victim_out :
        (t : Bool)
        → ((s.l2 i).v && (s.l2 i).d) ≡ t
        → (a : ℕ) → a < 2 ^ 32
        → Has s a i
        → ram (if t then bus_write_line bus (shl32 (s.l2 i).tag 5) (s.l2 i).b s else s).bus a
          ≡ (s.l2 i).b (bit_and a 31)
    unfolding bus_write_line fetch_drop_at put_line Has
    victim_out true e a ha h =
        let (v, tag) = tag_of_holder a (s.l2 i) h in
        let base : ℕ = shl32 (s.l2 i).tag 5 in
        law.write_ram base (s.l2 i).b a s.bus ha
        ∙ ap (λ (t : Bool). if t then (s.l2 i).b (bit_and a 31) else ram s.bus a)
            (eq→== (a >>> 5) (base >>> 5) (sym (tag_base (s.l2 i).tag (ok.known i v) ∙ tag)))
    victim_out false e a ha h =
        let (v, tag) = tag_of_holder a (s.l2 i) h in
        sym (ok.clean i a ha h (ap (λ (t : Bool). t && (s.l2 i).d) (sym v) ∙ e))

    victim_rest :
        (t : Bool)
        → ((s.l2 i).v && (s.l2 i).d) ≡ t
        → (a : ℕ) → a < 2 ^ 32
        → ¬ Has s a i
        → ram (if t then bus_write_line bus (shl32 (s.l2 i).tag 5) (s.l2 i).b s else s).bus a
          ≡ ram s.bus a
    unfolding bus_write_line fetch_drop_at put_line Has
    victim_rest true e a ha other =
        let base : ℕ = shl32 (s.l2 i).tag 5 in
        let v : (s.l2 i).v ≡ true = first_of (s.l2 i).v (s.l2 i).d e in
        law.write_ram base (s.l2 i).b a s.bus ha
        ∙ ap (λ (t : Bool). if t then (s.l2 i).b (bit_and a 31) else ram s.bus a)
            (==_ne (a >>> 5) (base >>> 5) (λ same.
              other (has_tag a (s.l2 i) v (sym (same ∙ tag_base (s.l2 i).tag (ok.known i v))))))
      where
        first_of : (p q : Bool) → (p && q) ≡ true → p ≡ true
        first_of true q h = refl
        first_of false q h = absurd (true≢false (sym h))
    victim_rest false e a ha other = refl

    pub emptied-Gone : Gone ram i s (emptied i s)
    unfolding emptied cast_victim put_entry
    emptied-Gone =
        let (l2_same, sets_same, inert_same) = cast_victim_l2 i s in
        let t = cast_victim i s in
        record {
          changed = record {
            sets = sets_same;
            inert = inert_same;
            others = λ j ne. update_other t.l2 i j _ ne ∙ ap (λ (f : ℕ → L2Line). f j) l2_same;
          };
          empty = ap (λ (x : L2Line). x.v) (update_same t.l2 i (record (s.l2 i) { v = false }));
          out = victim_out ((s.l2 i).v && (s.l2 i).d) refl;
          rest = victim_rest ((s.l2 i).v && (s.l2 i).d) refl;
        }

  slot_in_set :
      (p q r : Bool) (n : ℕ)
      → ((if not p then n else if not q then n + 1 else if r then n else n + 1) ≡ n)
        ⊎ ((if not p then n else if not q then n + 1 else if r then n else n + 1) ≡ n + 1)
  slot_in_set false q r n = inl refl
  slot_in_set true false r n = inr refl
  slot_in_set true true true n = inl refl
  slot_in_set true true false n = inr refl

  l2_slot-InPair : (pa : ℕ) (s : Backside M) → InPair s pa (l2_slot pa s)
  unfolding l2_slot InPair
  l2_slot-InPair pa s =
      slot_in_set (s.l2 (first_way pa s)).v (s.l2 (first_way pa s + 1)).v
        (leb (s.l2 (first_way pa s)).age (s.l2 (first_way pa s + 1)).age) (first_way pa s)

  -- A block that no line has goes into the way that was emptied for it.
  pub put_new :
      (pa : ℕ) (b : Line) (dirty : Bool) (s : Backside M)
      → pa < 2 ^ 32
      → L2Coherent ram s
      → ((j : ℕ) → ¬ Has s pa j)
      → (dirty ≡ false
          → (a : ℕ) → a < 2 ^ 32
          → (a >>> 5) ≡ (pa >>> 5)
          → b (bit_and a 31) ≡ ram s.bus a)
      → Taken ram pa (l2_slot pa s) (emptied (l2_slot pa s) s) (l2_put bus pa b dirty none s)
  unfolding l2_put emptied cast_victim put_entry
  put_new pa b dirty s hp ok no_line clean =
      let i = l2_slot pa s in
      let t = cast_victim i s in
      let go = emptied-Gone i s ok in
      let e : L2Line = record {
        v = true;
        d = dirty;
        tag = pa >>> 5;
        age = u32 (t.l2_clock + 1);
        b = b;
      } in
      let here : update t.l2 i e i ≡ e = update_same t.l2 i e in
      record {
        changed = record {
          sets = refl;
          inert = refl;
          others = λ j ne. update_other t.l2 i j e ne ∙ sym (update_other t.l2 i j _ ne);
        };
        valid = ap (λ (x : L2Line). x.v) here;
        tag = ap (λ (x : L2Line). x.tag) here;
        same_ram = λ a ha. refl;
        in_set = pair_kept ram i s (emptied i s) go.changed pa i (l2_slot-InPair pa s);
        own = λ a ha k. absurd ((was ram i s (emptied i s) ok go a i k).0 refl);
        only = λ j k. absurd (no_line j (was ram i s (emptied i s) ok go pa j k).1);
        fresh = λ not_dirty a ha same.
            ap (λ (x : L2Line). x.b (bit_and a 31)) here
            ∙ clean (ap (λ (x : L2Line). x.d) (sym here) ∙ not_dirty) a ha same
            ∙ sym (go.rest a ha (λ k. no_line i (Has-block ram s a pa i same k)));
      }

  pub put_new_line :
      (pa : ℕ) (b : Line) (dirty : Bool) (s : Backside M)
      → ((l2_put bus pa b dirty none s).l2 (l2_slot pa s)).b ≡ b
  unfolding l2_put cast_victim put_entry
  put_new_line pa b dirty s =
      let i = l2_slot pa s in
      let t = cast_victim i s in
      let e : L2Line = record {
        v = true;
        d = dirty;
        tag = pa >>> 5;
        age = u32 (t.l2_clock + 1);
        b = b;
      } in
      let here : update t.l2 i e i ≡ e = update_same t.l2 i e in ap (λ (x : L2Line). x.b) here
