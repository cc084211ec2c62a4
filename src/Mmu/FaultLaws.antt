-- ===== src/Mmu/FaultLaws.antt =====
-- What a translation (core/src/mmu.cpp) does to the processor, on every path through it.
use open_power_mac.Prelude.{
  ℕ, ◌+◌, ◌≡◌, refl, ◌∙◌, ap, Bool, true, false, not, Option, none, some, List, [], ◌∷◌, bit_or,
  if◌then◌else◌, has, sub32, Bool-cases, inl, inr, ◌==◌, ◌&&◌, ◌||◌, ◌!=◌, bit_and, Option-cases,
  ◌>>>◌, subst,
}
use open_power_mac.Cpu.{Cpu, CpuState, TlbEntry, raise_exc, exc_state, dsi, isi}
use open_power_mac.Cpu.ExceptionLaws.{handler_msr-HandlerState}
use open_power_mac.Cpu.Msr
use open_power_mac.Mmu.Memory.{Memory, Machine}
use open_power_mac.Mmu.Bat.{BatHit, pp_allows}
use open_power_mac.Mmu.Table.{Slot, slots, table_read, table_search, pte_matches}
use open_power_mac.Mmu.Translate.{
  Access, data_fault, fault, page_index, set_entry, set_lru, Way, other, guarded, denied,
  needs_change, serves, Tlb, answered, missed, at_way, try_way, tlb_lookup, after_lookup,
  write_back, reload, use_pte, walk, page_translate, segment_translate, bat_translate, blocks,
  after_blocks, translate,
}

-- The processor after a fault of the access: at the handler, with the faulting address saved, and for
-- data with the effective address in DAR and the store bit of DSISR telling a store.
pub record Faulted (x : Access) (s : CpuState) (c : Cpu) : Type 0 where
  pub handler :
      c.st.pc
      ≡ bit_or (if has s.msr Msr.ip then 0xfff0_0000 else 0) (if x.fetch then 0x400 else 0x300)
  pub return_address : c.st.srr0 ≡ (if x.fetch then x.ea else sub32 s.pc 4)
  pub raised : c.raised_this_step ≡ true
  pub data_address : c.st.dar ≡ (if x.fetch then s.dar else x.ea)
  pub store_bit :
      has c.st.dsisr 0x0200_0000 ≡ (if x.fetch then has s.dsisr 0x0200_0000 else x.write)
  pub registers : c.st.gpr ≡ s.gpr

-- A translation either faults, or leaves the registers of the processor as they were.
unfoldable pub Outcome : (M : Type 0) → Access → CpuState → Option (ℕ × ℕ) × Machine M → Type 0
Outcome M x s (none, m) = Faulted x s m.cpu
Outcome M x s (some r, m) = m.cpu.st ≡ s

-- The bits of a fault leave the store bit to the access.
abbrev Marks : ℕ → Type 0
Marks bits = (w : Bool) → has (bit_or bits (if w then 0x0200_0000 else 0)) 0x0200_0000 ≡ w

fault-Faulted :
    (x : Access) (isi_bits dsi_bits : ℕ) (c : Cpu)
    → Marks dsi_bits
    → Faulted x c.st (fault x isi_bits dsi_bits c)
unfolding fault data_fault raise_exc exc_state
fault-Faulted x isi_bits dsi_bits c marks = elim (Bool-cases x.fetch) [
  | inl f ↦ rw f record {
    handler =
        ap (λ (b : Bool). bit_or (if b then 0xfff0_0000 else 0) 0x400)
          (handler_msr-HandlerState isi c.st.msr).prefix;
    return_address = refl;
    raised = refl;
    data_address = refl;
    store_bit = refl;
    registers = refl;
  }
  | inr d ↦ rw d record {
    handler =
        ap (λ (b : Bool). bit_or (if b then 0xfff0_0000 else 0) 0x300)
          (handler_msr-HandlerState dsi c.st.msr).prefix;
    return_address = refl;
    raised = refl;
    data_address = refl;
    store_bit = marks x.write;
    registers = refl;
  }
]

protection : Marks 0x0800_0000
protection true = refl
protection false = refl

missing : Marks 0x4000_0000
missing true = refl
missing false = refl

direct_store : Marks 0x0400_0000
direct_store true = refl
direct_store false = refl

-- The fetch faults, which set no bit of DSISR.
nothing : Marks 0
nothing true = refl
nothing false = refl

module _ (M : Type 0) (mm : Memory M) (x : Access) where
  -- A fault is an outcome, and one of two outcomes is an outcome.
  faulted :
      (isi_bits dsi_bits : ℕ) (c : Cpu) (mem : M) (s : CpuState)
      → Marks dsi_bits
      → c.st ≡ s
      → Outcome M x s (none, record { cpu = fault x isi_bits dsi_bits c; mem = mem })
  unfolding Outcome
  faulted isi_bits dsi_bits c mem s marks same =
      subst (λ (t : CpuState). Faulted x t (fault x isi_bits dsi_bits c)) same
        (fault-Faulted x isi_bits dsi_bits c marks)

  done : (r : ℕ × ℕ) (m : Machine M) (s : CpuState) → m.cpu.st ≡ s → Outcome M x s (some r, m)
  unfolding Outcome
  done r m s same = same

  either :
      (b : Bool) (s : CpuState) (p q : Option (ℕ × ℕ) × Machine M)
      → Outcome M x s p
      → Outcome M x s q
      → Outcome M x s (if b then p else q)
  either true s p q h k = h
  either false s p q h k = k

  table_read-cpu : (a : ℕ) (m : Machine M) → (table_read mm a m).1.cpu ≡ m.cpu
  unfolding table_read
  table_read-cpu a m = elim (Bool-cases m.cpu.mmu_probe) [
    | inl probe ↦ rw probe
    | inr plain ↦ rw plain
  ]

  table_search-cpu :
      (vsid p : ℕ) (ss : List Slot) (m : Machine M) → (table_search mm vsid p ss m).1.cpu ≡ m.cpu
  unfolding table_search
  table_search-cpu vsid p [] m = refl
  table_search-cpu vsid p (s ∷ ss) m =
      let (w0, m') = table_read mm s.addr m in
      elim (Bool-cases (pte_matches vsid p s.second w0)) [
        | inl found ↦ rw found (table_read-cpu s.addr m)
        | inr next ↦ rw next (table_search-cpu vsid p ss m' ∙ table_read-cpu s.addr m)
      ]

  write_back-cpu : (addr w1 nw1 : ℕ) (m : Machine M) → (write_back mm addr w1 nw1 m).cpu ≡ m.cpu
  unfolding write_back
  write_back-cpu addr w1 nw1 m = elim (Bool-cases (nw1 != w1 && not m.cpu.mmu_probe)) [
    | inl changed ↦ rw changed
    | inr kept ↦ rw kept
  ]

  set_entry-st : (set way : ℕ) (e : TlbEntry) (c : Cpu) → (set_entry x set way e c).st ≡ c.st
  unfolding set_entry
  set_entry-st set way e c = elim (Bool-cases x.fetch) [ inl f ↦ rw f | inr d ↦ rw d ]

  set_lru-st : (set way : ℕ) (c : Cpu) → (set_lru x set way c).st ≡ c.st
  unfolding set_lru
  set_lru-st set way c = elim (Bool-cases x.fetch) [ inl f ↦ rw f | inr d ↦ rw d ]

  reload-st : (vsid w1 nw1 : ℕ) (c : Cpu) → (reload mm x vsid w1 nw1 c).st ≡ c.st
  unfolding reload
  reload-st vsid w1 nw1 c = elim (Bool-cases c.mmu_probe) [
    | inl probe ↦ rw probe
    | inr plain ↦ rw plain (set_lru-st _ _ _ ∙ set_entry-st _ _ _ _)
  ]

  use_pte-Outcome :
      (vsid : ℕ) (key : Bool) (addr : ℕ) (m : Machine M) (s : CpuState)
      → m.cpu.st ≡ s
      → Outcome M x s (use_pte mm x vsid key addr m)
  unfolding use_pte
  use_pte-Outcome vsid key addr m s same =
      let (w1, m') = table_read mm (addr + 4) m in
      let kept : m'.cpu.st ≡ s = ap (λ (c : Cpu). c.st) (table_read-cpu (addr + 4) m) ∙ same in
      either (x.fetch && has w1 8) s _ _ (faulted _ _ _ _ s nothing kept) (
        either (not (pp_allows (bit_and w1 3) key x.write)) s _ _
          (faulted _ _ _ _ s protection (ap (λ (c : Cpu). c.st) (write_back-cpu _ _ _ _) ∙ kept))
          (done _ _ s (reload-st _ _ _ _ ∙ ap (λ (c : Cpu). c.st) (write_back-cpu _ _ _ _) ∙ kept)))

  walk-Outcome :
      (vsid : ℕ) (key : Bool) (m : Machine M) (s : CpuState)
      → m.cpu.st ≡ s
      → Outcome M x s (walk mm x vsid key m)
  unfolding walk
  walk-Outcome vsid key m s same =
      let ss = slots m.cpu.st.sdr1 vsid (page_index x.ea) in
      let (found, m') = table_search mm vsid (page_index x.ea) ss m in
      let kept : m'.cpu.st ≡ s =
        ap (λ (c : Cpu). c.st) (table_search-cpu vsid (page_index x.ea) ss m) ∙ same in
      elim (Option-cases found) [
        | inl miss ↦ rw (walk, miss) (faulted _ _ _ _ s missing kept)
        | inr (addr, hit) ↦ rw (walk, hit) (use_pte-Outcome vsid key addr m' s kept)
      ]

  -- The answer of the lookaside buffer is an outcome, and a miss leaves the registers alone.
  unfoldable Looked : CpuState → Tlb → Type 0
  Looked s (answered r c) = (mem : M) → Outcome M x s (r, record { cpu = c; mem = mem })
  Looked s (missed c) = c.st ≡ s

  at_way-Looked :
      (set way : ℕ) (e : TlbEntry) (next : Tlb) (c : Cpu) (w : Way) (s : CpuState)
      → c.st ≡ s
      → Looked s next
      → Looked s (at_way x set way e next c w)
  unfolding at_way Looked
  at_way-Looked set way e next c other s same h = h
  at_way-Looked set way e next c guarded s same h = λ mem. faulted _ _ _ mem s nothing same
  at_way-Looked set way e next c denied s same h = λ mem. faulted _ _ _ mem s protection same
  at_way-Looked set way e next c needs_change s same h = set_entry-st _ _ _ _ ∙ same
  at_way-Looked set way e next c serves s same h = λ mem. done _ _ s (set_lru-st _ _ _ ∙ same)

  tlb_lookup-Looked : (vsid : ℕ) (key : Bool) (c : Cpu) → Looked c.st (tlb_lookup x vsid key c)
  unfolding tlb_lookup try_way Looked
  tlb_lookup-Looked vsid key c =
      at_way-Looked _ 0 _ _ c _ c.st refl (at_way-Looked _ 1 _ (missed c) c _ c.st refl refl)

  after_lookup-Outcome :
      (vsid : ℕ) (key : Bool) (m : Machine M) (t : Tlb) (s : CpuState)
      → Looked s t
      → Outcome M x s (after_lookup mm x vsid key m t)
  unfolding after_lookup Looked
  after_lookup-Outcome vsid key m (answered r c) s h = h m.mem
  after_lookup-Outcome vsid key m (missed c) s h = walk-Outcome vsid key (record m { cpu = c }) s h

  page_translate-Outcome :
      (vsid : ℕ) (key : Bool) (m : Machine M)
      → Outcome M x m.cpu.st (page_translate mm x vsid key m)
  unfolding page_translate
  page_translate-Outcome vsid key m =
      either m.cpu.mmu_probe m.cpu.st _ _ (walk-Outcome vsid key m m.cpu.st refl) (
        after_lookup-Outcome vsid key m (tlb_lookup x vsid key m.cpu) m.cpu.st
          (tlb_lookup-Looked vsid key m.cpu))

  segment_translate-Outcome : (m : Machine M) → Outcome M x m.cpu.st (segment_translate mm x m)
  unfolding segment_translate
  segment_translate-Outcome m =
      either (has (m.cpu.st.sr (x.ea >>> 28)) 0x8000_0000) m.cpu.st _ _
        (faulted _ _ _ _ m.cpu.st direct_store refl)
        (either (x.fetch && has (m.cpu.st.sr (x.ea >>> 28)) 0x1000_0000) m.cpu.st _ _
          (faulted _ _ _ _ m.cpu.st nothing refl) (page_translate-Outcome _ _ m))

  bat_translate-Outcome :
      (b : BatHit) (m : Machine M) → Outcome M x m.cpu.st (bat_translate mm x b m)
  unfolding bat_translate
  bat_translate-Outcome b m =
      either (x.fetch && has b.wimg 1) m.cpu.st _ _ (faulted _ _ _ _ m.cpu.st nothing refl) (
        either (b.pp == 0 || (x.write && has b.pp 1)) m.cpu.st _ _
          (faulted _ _ _ _ m.cpu.st protection refl) (done _ m m.cpu.st refl))

  after_blocks-Outcome :
      (m : Machine M) (b : Option BatHit) → Outcome M x m.cpu.st (after_blocks mm x m b)
  unfolding after_blocks
  after_blocks-Outcome m none = segment_translate-Outcome m
  after_blocks-Outcome m (some b) = bat_translate-Outcome b m

  -- Every translation, whatever the tables and the memory hold, either answers and leaves the registers
  -- of the processor as they were, or raises the storage interrupt of the access: the handler's
  -- address, the instruction to return to, for data the faulting address and whether it was a store,
  -- and no general register changed.
  pub translate-Outcome : (m : Machine M) → Outcome M x m.cpu.st (translate mm x m)
  unfolding translate
  translate-Outcome m =
      either (not (has m.cpu.st.msr (if x.fetch then Msr.ir else Msr.dr))) m.cpu.st _ _
        (done _ m m.cpu.st refl) (after_blocks-Outcome m (blocks mm x m.cpu.st))
