-- ===== src/Pci/BarLaws.antt =====
-- What no access to the configuration space changes, and what a write to a base address register
-- leaves (machine/src/pci.cpp).
use open_power_mac.Prelude.{
  ℕ, ◌-◌, ◌*◌, ◌/◌, ◌<◌, ◌≡◌, ◌≢◌, refl, ◌∙◌, sym, ap, true, false, not, Option, none, some, List,
  [], ◌∷◌, bit_and, if◌then◌else◌, ◌==◌, ◌!=◌, ltb, has, ◌>>>◌, u8, update_same, update_other,
  arith, Bool-cases, inl, inr, dec_eq, subst,
}
use open_power_mac.Prelude.BitLaws.{bit, bit-and, bit-or, bit-complement, bit-le-one}
use open_power_mac.Pci.Config.{
  Dev, PciConfig, put8, set_addr, bus_of, dev_of, reg_of, note_write, read_data, bar_byte, in_bars,
  bar_mask_of, mask_byte_of, dev_write, write_dev, write_found, write_data,
}

bit-bar_byte :
    (mb old v k : ℕ)
    → mb < 256
    → k < 8
    → bit (bar_byte mb old v) k ≡ (if bit mb k == 1 then bit v k else bit old k)
unfolding bar_byte
bit-bar_byte mb old v k hm hk =
    rw (bit-or, bit-and v mb k, bit-and old (255 - mb) k, bit-complement 8 mb k hm hk)
      (ground (arith, bit-le-one v k, bit-le-one old k, bit-le-one mb k))

-- The device that the address register selects.
pub record Selected (p : PciConfig) (d : Dev) : Type 0 where
  pub enabled : has p.addr 0x8000_0000 ≡ true
  pub bus_zero : bus_of p.addr ≡ 0
  pub present : p.devs (dev_of p.addr) ≡ some d

pub write_data-found :
    (lane v : ℕ) (p : PciConfig) (d : Dev)
    → Selected p d
    → write_data lane v p ≡ write_dev (dev_of p.addr) (reg_of p.addr lane) v d (note_write p)
unfolding write_data
write_data-found lane v p d s =
    let zero_bus : (bus_of p.addr != 0) ≡ false = ground (arith, s.bus_zero) in
    rw (write_data, s.enabled, zero_bus, s.present) refl

read_data-found :
    (lane : ℕ) (p : PciConfig) (d : Dev)
    → Selected p d
    → (read_data lane p).0 ≡ d.cfg (reg_of p.addr lane)
unfolding read_data
read_data-found lane p d s =
    let zero_bus : (bus_of p.addr != 0) ≡ false = ground (arith, s.bus_zero) in
    rw (read_data, s.enabled, zero_bus, s.present) refl

dev_write-bar :
    (reg v : ℕ) (d : Dev)
    → in_bars reg ≡ true
    → bar_mask_of d reg ≢ 0
    → (dev_write reg v d).cfg reg ≡ bar_byte (mask_byte_of d reg) (d.cfg reg) v
unfolding dev_write
dev_write-bar reg v d bars some_mask =
    let implemented : (bar_mask_of d reg == 0) ≡ false = ground arith in
    rw (bars, implemented) (update_same d.cfg reg _)

written_Selected :
    (reg v : ℕ) (p : PciConfig) (d : Dev)
    → Selected p d
    → Selected (write_dev (dev_of p.addr) reg v d (note_write p)) (dev_write reg v d)
unfolding write_dev
written_Selected reg v p d s = record {
  enabled = s.enabled;
  bus_zero = s.bus_zero;
  present = update_same p.devs (dev_of p.addr) _;
}

read_written :
    (lane v : ℕ) (p : PciConfig) (d : Dev)
    → Selected p d
    → (read_data lane (write_data lane v p)).0
      ≡ (dev_write (reg_of p.addr lane) v d).cfg (reg_of p.addr lane)
unfolding write_dev
read_written lane v p d s =
    let reg = reg_of p.addr lane in
    ap (λ (q : PciConfig). (read_data lane q).0) (write_data-found lane v p d s)
    ∙ read_data-found lane (write_dev (dev_of p.addr) reg v d (note_write p)) (dev_write reg v d)
        (written_Selected reg v p d s)

-- A byte written to an implemented base address register of a selected device and read back: the
-- bits of its mask have the written value, the others the value that they had.
pub write-read_bar :
    (lane v k : ℕ) (p : PciConfig) (d : Dev)
    → Selected p d
    → in_bars (reg_of p.addr lane) ≡ true
    → bar_mask_of d (reg_of p.addr lane) ≢ 0
    → k < 8
    → bit (read_data lane (write_data lane v p)).0 k ≡ (
        if bit (mask_byte_of d (reg_of p.addr lane)) k == 1
        then bit v k
        else bit (read_data lane p).0 k)
write-read_bar lane v k p d s bars some_mask hk =
    let reg = reg_of p.addr lane in
    rw (read_written lane v p d s, read_data-found lane p d s, dev_write-bar reg v d bars some_mask)
      (bit-bar_byte (mask_byte_of d reg) (d.cfg reg) v k (omega arith) hk)

-- What is fixed in a device: the identification and command bytes, the masks, and the bits of the base
-- address registers outside their masks.
pub record Fixed (d e : Dev) : Type 0 where
  pub ids : (reg : ℕ) → reg < 8 → e.cfg reg ≡ d.cfg reg
  pub masks : e.bar_mask ≡ d.bar_mask
  pub bars :
      (reg k : ℕ)
      → in_bars reg ≡ true
      → k < 8
      → bit (mask_byte_of d reg) k ≡ 0
      → bit (e.cfg reg) k ≡ bit (d.cfg reg) k

Fixed-refl : (d : Dev) → Fixed d d
Fixed-refl d = record { ids = λ reg h. refl; masks = refl; bars = λ reg k h hk out. refl }

Fixed-trans : (c d e : Dev) → Fixed c d → Fixed d e → Fixed c e
Fixed-trans c d e f g = record {
  ids = λ reg h. g.ids reg h ∙ f.ids reg h;
  masks = g.masks ∙ f.masks;
  bars = λ reg k h hk out.
      g.bars reg k h hk (
        ap (λ (m : ℕ → ℕ). bit (u8 (m ((reg - 0x10) / 4) >>> (8 * bit_and reg 3))) k) f.masks ∙ out)
      ∙ f.bars reg k h hk out;
}

bar_write-Fixed :
    (reg v : ℕ) (d : Dev)
    → in_bars reg ≡ true
    → Fixed d (put8 reg (bar_byte (mask_byte_of d reg) (d.cfg reg) v) d)
bar_write-Fixed reg v d bars = record {
  ids = λ r h. update_other d.cfg reg r _ (ground arith);
  masks = refl;
  bars = λ r k h hk out. elim (dec_eq r reg) [
    | yes e ↦
        let mb = mask_byte_of d reg in
        let outside : bit mb k ≡ 0 = ap (λ (t : ℕ). bit (mask_byte_of d t) k) (sym e) ∙ out in
        rw e (
          ap (λ (t : ℕ). bit t k) (update_same d.cfg reg _)
          ∙ bit-bar_byte mb (d.cfg reg) v k (omega arith) hk
          ∙ rw outside refl)
    | no ne ↦ ap (λ (t : ℕ). bit t k) (update_other d.cfg reg r _ ne)
  ];
}

dev_write-Fixed : (reg v : ℕ) (d : Dev) → Fixed d (dev_write reg v d)
unfolding dev_write
dev_write-Fixed reg v d = elim (Bool-cases (in_bars reg)) [
  | inl bars ↦ rw bars (elim (Bool-cases (bar_mask_of d reg == 0)) [
    | inl none_there ↦ rw none_there (Fixed-refl d)
    | inr there ↦ rw there (bar_write-Fixed reg v d bars)
  ])
  | inr plain ↦ rw plain (elim (Bool-cases (ltb reg 8)) [
    | inl id ↦ rw id (Fixed-refl d)
    | inr free ↦ rw free (free_write-Fixed reg v d plain free)
  ])
]
  where
    free_write-Fixed :
        (reg v : ℕ) (d : Dev) → in_bars reg ≡ false → ltb reg 8 ≡ false → Fixed d (put8 reg v d)
    free_write-Fixed reg v d plain free = record {
      ids = λ r h. update_other d.cfg reg r v (ground arith);
      masks = refl;
      bars = λ r k h hk out. ap (λ (t : ℕ). bit t k) (update_other d.cfg reg r v (ground arith));
    }

-- Two devices, or none in both.
unfoldable pub FixedAt : Option Dev → Option Dev → Type 0
FixedAt none o = o ≡ none
FixedAt (some d) none = true ≡ false
FixedAt (some d) (some e) = Fixed d e

FixedAt-refl : (o : Option Dev) → FixedAt o o
unfolding FixedAt
FixedAt-refl none = refl
FixedAt-refl (some d) = Fixed-refl d

FixedAt-trans : (o p q : Option Dev) → FixedAt o p → FixedAt p q → FixedAt o q
unfolding FixedAt
FixedAt-trans none p q f g = subst (λ (o : Option Dev). FixedAt o q) f g
FixedAt-trans (some d) none q f g = ground arith
FixedAt-trans (some d) (some e) none f g = g
FixedAt-trans (some d) (some e) (some c) f g = Fixed-trans d e c f g

-- The operations of the bus on the configuration space.
pub data PciOp : Type 0 where
  address : ℕ → PciOp
  read_byte : ℕ → PciOp
  write_byte : ℕ → ℕ → PciOp

abbrev pub run_op : PciOp → PciConfig → PciConfig
run_op (address a) p = set_addr a p
run_op (read_byte lane) p = (read_data lane p).1
run_op (write_byte lane v) p = write_data lane v p

abbrev pub run : List PciOp → PciConfig → PciConfig
run [] p = p
run (op ∷ ops) p = run ops (run_op op p)

read_data-devs : (lane : ℕ) (p : PciConfig) → (read_data lane p).1.devs ≡ p.devs
unfolding read_data
read_data-devs lane p = elim (Bool-cases (not (has p.addr 0x8000_0000))) [
  | inl off ↦ rw off
  | inr on ↦
      rw on (elim (Bool-cases (bus_of p.addr != 0)) [ inl far ↦ rw far | inr near ↦ rw near ])
]

write_found-FixedAt :
    (n reg v m : ℕ) (o : Option Dev) (p : PciConfig)
    → p.devs n ≡ o
    → FixedAt (p.devs m) ((write_found n reg v o p).devs m)
unfolding write_dev FixedAt
write_found-FixedAt n reg v m none p at = FixedAt-refl (p.devs m)
write_found-FixedAt n reg v m (some d) p at = elim (dec_eq m n) [
  | yes e ↦ rw (e, at, update_same p.devs n (some (dev_write reg v d))) (dev_write-Fixed reg v d)
  | no ne ↦ rw (update_other p.devs n m (some (dev_write reg v d)) ne) (FixedAt-refl (p.devs m))
]

write_data-FixedAt :
    (lane v m : ℕ) (p : PciConfig) → FixedAt (p.devs m) ((write_data lane v p).devs m)
unfolding write_data
write_data-FixedAt lane v m p = elim (Bool-cases (not (has p.addr 0x8000_0000))) [
  | inl off ↦ rw off (FixedAt-refl (p.devs m))
  | inr on ↦ rw on (elim (Bool-cases (bus_of p.addr != 0)) [
    | inl far ↦ rw far (FixedAt-refl (p.devs m))
    | inr near ↦ rw near (
        write_found-FixedAt (dev_of p.addr) (reg_of p.addr lane) v m (p.devs (dev_of p.addr))
          (note_write p) refl)
  ])
]

run_op-FixedAt : (op : PciOp) (m : ℕ) (p : PciConfig) → FixedAt (p.devs m) ((run_op op p).devs m)
run_op-FixedAt (address a) m p = FixedAt-refl (p.devs m)
run_op-FixedAt (read_byte lane) m p =
    subst (λ (f : ℕ → Option Dev). FixedAt (p.devs m) (f m)) (sym (read_data-devs lane p))
      (FixedAt-refl (p.devs m))
run_op-FixedAt (write_byte lane v) m p = write_data-FixedAt lane v m p

-- However the guest programs the configuration space, no device appears or goes away, and each keeps its
-- identification and command bytes, its masks and the bits of its base address registers
-- outside of them.
pub run-FixedAt :
    (ops : List PciOp) (m : ℕ) (p : PciConfig) → FixedAt (p.devs m) ((run ops p).devs m)
run-FixedAt [] m p = FixedAt-refl (p.devs m)
run-FixedAt (op ∷ ops) m p =
    FixedAt-trans (p.devs m) ((run_op op p).devs m) ((run ops (run_op op p)).devs m)
      (run_op-FixedAt op m p) (run-FixedAt ops m (run_op op p))
