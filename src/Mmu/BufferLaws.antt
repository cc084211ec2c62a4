-- ===== src/Mmu/BufferLaws.antt =====
-- The translation lookaside buffers (core/src/mmu.cpp): what they forget and what they go on answering.
use open_power_mac.Prelude.{
  ℕ, ◌-◌, ◌≤◌, ◌⊎◌, ◌/◌, ◌%◌, ◌^◌, ◌<◌, ◌≡◌, Option, none, some, bit_or, ◌≢◌, refl, ◌∙◌, ap, Bool,
  true, false, bit_and, arith, ◌==◌, ◌>>>◌, if◌then◌else◌, Bool-cases, inl, inr, ==_ne, fun_ext,
}
use mathlib.Core.Bool.{true≢false}
use open_power_mac.Prelude.BitLaws.{bit_and_low}
use open_power_mac.Cpu.{Cpu, TlbEntry}
use open_power_mac.Mmu.Memory.{Memory, Machine}
use open_power_mac.Mmu.Translate.{
  Access, page_index, tlb, entry_way, Tlb, missed, at_way, try_way, tlb_lookup, after_lookup, walk,
  page_translate, translate,
}
use open_power_mac.Mmu.Access.{
  tlb_invalidate_class, drop_class, dxl_valid, direction, data_access, xlate_data, remember,
}

-- The set of the buffers that an address selects: bits 14 to 19 of it.
abbrev pub class_of : ℕ → ℕ
class_of ea = bit_and (ea >>> 12) 63

set_of_page : (ea : ℕ) → bit_and (page_index ea) 63 ≡ class_of ea
set_of_page ea =
    rw
      (
        bit_and_low 16 (ea / 2 ^ 12),
        bit_and_low 6 (ea / 2 ^ 12 % 2 ^ 16),
        bit_and_low 6 (ea / 2 ^ 12),
      )
      (omega arith)

-- An entry that is not valid lets the search go on.
empty_way :
    (x : Access) (vsid : ℕ) (key : Bool) (way : ℕ) (next : Tlb) (c : Cpu)
    → (tlb x c (bit_and (page_index x.ea) 63) way).v ≡ false
    → try_way x vsid key way next c ≡ next
unfolding try_way entry_way at_way
empty_way x vsid key way next c empty = rw (try_way, entry_way, empty, at_way) refl

both_empty :
    (x : Access) (vsid : ℕ) (key : Bool) (c : Cpu)
    → ((way : ℕ) → way < 2 → (tlb x c (bit_and (page_index x.ea) 63) way).v ≡ false)
    → tlb_lookup x vsid key c ≡ missed c
unfolding tlb_lookup
both_empty x vsid key c empty =
    empty_way x vsid key 0 _ c (empty 0 (omega arith))
    ∙ empty_way x vsid key 1 _ c (empty 1 (omega arith))

drop_class-empty :
    (set way : ℕ) (t : ℕ → ℕ → TlbEntry) → way < 2 → (drop_class set t set way).v ≡ false
drop_class-empty set way t h = ground arith

drop_class-other : (set s : ℕ) (t : ℕ → ℕ → TlbEntry) → s ≢ set → drop_class set t s ≡ t s
drop_class-other set s t ne =
    let elsewhere : (s == set) ≡ false = ==_ne s set ne in fun_ext (λ (w : ℕ). rw elsewhere refl)

class_emptied :
    (x : Access) (ea way : ℕ) (c : Cpu)
    → way < 2
    → (tlb x (tlb_invalidate_class ea c) (class_of ea) way).v ≡ false
unfolding tlb_invalidate_class
class_emptied x ea way c h = elim (Bool-cases x.fetch) [
  | inl f ↦ rw f (drop_class-empty (class_of ea) way c.itlb h)
  | inr d ↦ rw d (drop_class-empty (class_of ea) way c.dtlb h)
]

if_either {ℓ} : {A : Type ℓ} (b : Bool) (p q r : A) → p ≡ r → q ≡ r → (if b then p else q) ≡ r
if_either true p q r h k = h
if_either false p q r h k = k

-- A page that was remembered in another generation serves no access.
retired :
    (ea : ℕ) (write : Bool) (c : Cpu)
    → c.dxl_gen (direction write) ≢ c.mmu_gen
    → dxl_valid ea write c ≡ false
unfolding dxl_valid
retired ea write c ne = rw (==_ne (c.dxl_gen (direction write)) c.mmu_gen ne) refl

-- The second translation has the answer of the first and leaves memory as it does.
unfoldable pub Same :
    {M : Type 0} → Option (ℕ × ℕ) × Machine M → Option (ℕ × ℕ) × Machine M → Type 0
Same a b = (b.0 ≡ a.0) × (b.1.mem ≡ a.1.mem)

module _ {M : Type 0} (mm : Memory M) where
  walks :
      (vsid : ℕ) (key : Bool) (x : Access) (m : Machine M)
      → tlb_lookup x vsid key m.cpu ≡ missed m.cpu
      → page_translate mm x vsid key m ≡ walk mm x vsid key m
  unfolding page_translate after_lookup
  walks vsid key x m empty =
      if_either m.cpu.mmu_probe (walk mm x vsid key m) _ _ refl
        (ap (after_lookup mm x vsid key m) empty)

  -- What an access finds that the remembered page does not serve.
  settled :
      (ea : ℕ) (write : Bool) (m m' : Machine M) (r : Option (ℕ × ℕ))
      → Same
          (r, m')
          (elim r [
            | none ↦ (none, m')
            | some p ↦ (some p, record m' { cpu = remember ea write p.0 p.1 m.cpu.st m'.cpu })
          ])
  unfolding Same
  settled ea write m m' none = (refl, refl)
  settled ea write m m' (some p) = (refl, refl)

  stale-translate :
      (ea : ℕ) (write : Bool) (m : Machine M)
      → dxl_valid ea write m.cpu ≡ false
      → Same (translate mm (data_access ea write) m) (xlate_data mm ea write m)
  unfolding xlate_data Same
  stale-translate ea write m stale = which m.cpu.dxl_cache_off (dxl_valid ea write m.cpu) stale
    where
      which :
          (off valid : Bool)
          → valid ≡ false
          → Same (translate mm (data_access ea write) m) (
              if off
              then translate mm (data_access ea write) m
              else if valid
              then (
                some (
                  bit_or (m.cpu.dxl_pa (direction write)) (bit_and ea 0xfff),
                  m.cpu.dxl_wimg (direction write),
                ),
                m,
              )
              else (let (r, m') = translate mm (data_access ea write) m in
                  elim r [
                    | none ↦ (none, m')
                    | some p ↦
                        (some p, record m' { cpu = remember ea write p.0 p.1 m.cpu.st m'.cpu })
                  ]))
      which true valid h = (refl, refl)
      which false true h = absurd (true≢false h)
      which false false h =
          let t = translate mm (data_access ea write) m in settled ea write m t.1 t.0

  -- After a `tlbie` the next data access to a page of the class that it names is answered by `translate` and
  -- not by the page that was remembered for its direction; an access of any kind to a page of the class,
  -- whatever the segment and the key, searches the page table once it is past the blocks and the segment;
  -- and no other class has lost an entry. The page was remembered in no later generation than the present
  -- one, or in none, and the 64-bit count of generations is not at its end.
  pub tlb_invalidate_class-walk :
      (x : Access) (ea vsid : ℕ) (key : Bool) (m : Machine M)
      → class_of x.ea ≡ class_of ea
      → ((m.cpu.dxl_gen (direction x.write) ≤ m.cpu.mmu_gen)
          ⊎ (m.cpu.dxl_gen (direction x.write) ≡ 2 ^ 64 - 1))
      → m.cpu.mmu_gen < 2 ^ 64 - 2
      → Same
          (translate mm
            (data_access x.ea x.write)
            (record m { cpu = tlb_invalidate_class ea m.cpu }))
          (xlate_data mm x.ea x.write (record m { cpu = tlb_invalidate_class ea m.cpu }))
        × (page_translate mm x vsid key (record m { cpu = tlb_invalidate_class ea m.cpu })
            ≡ walk mm x vsid key (record m { cpu = tlb_invalidate_class ea m.cpu }))
        × ((set : ℕ)
            → set ≢ class_of ea
            → ((tlb_invalidate_class ea m.cpu).itlb set ≡ m.cpu.itlb set)
              × ((tlb_invalidate_class ea m.cpu).dtlb set ≡ m.cpu.dtlb set))
  unfolding tlb_invalidate_class
  tlb_invalidate_class-walk x ea vsid key m same past room =
      let c = tlb_invalidate_class ea m.cpu in
      let set : bit_and (page_index x.ea) 63 ≡ class_of ea = set_of_page x.ea ∙ same in
      let empty : tlb_lookup x vsid key c ≡ missed c =
        both_empty x vsid key c
          (λ way h. ap (λ (t : ℕ). (tlb x c t way).v) set ∙ class_emptied x ea way m.cpu h) in
      (
        stale-translate x.ea x.write (record m { cpu = c })
            (retired x.ea x.write c (elim past [ inl h ↦ omega arith | inr h ↦ omega arith ])),
        walks vsid key x (record m { cpu = c }) empty,
        λ other_set ne. (
          drop_class-other (class_of ea) other_set m.cpu.itlb ne,
          drop_class-other (class_of ea) other_set m.cpu.dtlb ne,
        ),
      )
