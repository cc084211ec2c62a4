-- ===== src/Pci/BankLaws.antt =====
-- The memory interface of the host bridge as the bus sees it (machine/src/pci.cpp).
use open_power_mac.Prelude.{
  ℕ, ◌+◌, ◌^◌, ◌≤◌, ◌<◌, ◌≡◌, refl, ◌∙◌, sym, ap, true, some, bit_and, ◌==◌, ◌!=◌, leb, ltb, has,
  update, update_same, update_other, arith, Bool-cases, inl, inr, dec_eq, Option-cases, subst,
}
use open_power_mac.Pci.Config.{
  Dev, PciConfig, bus_of, dev_of, reg_of, note_write, in_bars, bar_mask_of, dev_write, write_dev,
  write_data,
}
use open_power_mac.Pci.BarLaws.{write_data-found}
use open_power_mac.Pci.Banks.{bank, ram_bank, mem_go, le32}

-- A write below register 0x80 leaves the registers from there on.
dev_write-high :
    (reg v r : ℕ) (d : Dev) → reg < 0x80 → 0x80 ≤ r → (dev_write reg v d).cfg r ≡ d.cfg r
unfolding dev_write
dev_write-high reg v r d low high = elim (Bool-cases (in_bars reg)) [
  | inl bars ↦ rw bars (elim (Bool-cases (bar_mask_of d reg == 0)) [
    | inl none_there ↦ rw none_there refl
    | inr there ↦ rw there (update_other d.cfg reg r _ (omega arith))
  ])
  | inr plain ↦ rw plain (elim (Bool-cases (ltb reg 8)) [
    | inl id ↦ rw id refl
    | inr free ↦ rw free (update_other d.cfg reg r v (omega arith))
  ])
]

-- The registers of the memory interface: what `p` has of them, `q` has.
abbrev pub SameInterface : PciConfig → PciConfig → Type 0
SameInterface p q = ((n : ℕ) → n < 8 → ram_bank n q ≡ ram_bank n p) × (mem_go q ≡ mem_go p)

bank_same : (c e : ℕ → ℕ) (n : ℕ) → ((r : ℕ) → 0x80 ≤ r → e r ≡ c r) → bank e n ≡ bank c n
unfolding bank
bank_same c e n h = elim (Bool-cases (ltb n 4)) [
  | inl first ↦
      rw
        (
          first,
          h (0x80 + bit_and n 3) (omega arith),
          h (0x88 + bit_and n 3) (omega arith),
          h (0x90 + bit_and n 3) (omega arith),
          h (0x98 + bit_and n 3) (omega arith),
          h 0xa0 (omega arith),
        )
        refl
  | inr second ↦
      rw
        (
          second,
          h (0x84 + bit_and n 3) (omega arith),
          h (0x8c + bit_and n 3) (omega arith),
          h (0x94 + bit_and n 3) (omega arith),
          h (0x9c + bit_and n 3) (omega arith),
          h 0xa0 (omega arith),
        )
        refl
]

-- Two configurations whose host bridges agree from register 0x80 on.
same_bridge :
    (p q : PciConfig) (d e : Dev)
    → p.devs 0 ≡ some d
    → q.devs 0 ≡ some e
    → ((r : ℕ) → 0x80 ≤ r → e.cfg r ≡ d.cfg r)
    → SameInterface p q
unfolding ram_bank mem_go le32
same_bridge p q d e at_p at_q h = (
  λ n hn. rw (ram_bank, at_p, at_q) (ap some (bank_same d.cfg e.cfg n h)),
  rw
      (
        mem_go,
        at_p,
        at_q,
        le32,
        h 0xf0 (omega arith),
        h 0xf1 (omega arith),
        h 0xf2 (omega arith),
        h 0xf3 (omega arith),
      )
      refl,
)

unchanged_bridge : (p q : PciConfig) → q.devs 0 ≡ p.devs 0 → SameInterface p q
unfolding ram_bank mem_go
unchanged_bridge p q same = (λ n hn. rw (ram_bank, same) refl, rw (mem_go, same) refl)

-- A counted write moves the generation.
counted :
    (n reg v : ℕ) (d : Dev) (p : PciConfig)
    → n ≡ 0
    → leb 0x80 reg ≡ true
    → p.mem_gen < 2 ^ 32
    → (write_dev n reg v d p).mem_gen ≡ p.mem_gen
    → 1 ≤ 0
unfolding write_dev
counted n reg v d p e high hg same = ground arith

write_dev-SameInterface :
    (n reg v : ℕ) (d : Dev) (p : PciConfig)
    → p.devs n ≡ some d
    → p.mem_gen < 2 ^ 32
    → (write_dev n reg v d p).mem_gen ≡ p.mem_gen
    → SameInterface p (write_dev n reg v d p)
unfolding write_dev
write_dev-SameInterface n reg v d p at hg same = elim (dec_eq n 0) [
  | yes e ↦ elim (Bool-cases (leb 0x80 reg)) [
    | inl high ↦ let no : 1 ≤ 0 = counted n reg v d p e high hg same in elim no [ ]
    | inr low ↦
        same_bridge p (write_dev n reg v d p) d (dev_write reg v d) (ap p.devs (sym e) ∙ at)
          (ap (update p.devs n (some (dev_write reg v d))) (sym e)
            ∙ update_same p.devs n (some (dev_write reg v d)))
          (λ r h. dev_write-high reg v r d (ground arith) h)
  ]
  | no ne ↦ unchanged_bridge p _ (update_other p.devs n 0 _ (λ e. ne (sym e)))
]

-- The generation count, a 32-bit word, tells the bus all that it must know: after a write that
-- leaves it alone the memory banks and the enable of the memory interface are the same.
pub write_data-SameInterface :
    (lane v : ℕ) (p : PciConfig)
    → p.mem_gen < 2 ^ 32
    → (write_data lane v p).mem_gen ≡ p.mem_gen
    → SameInterface p (write_data lane v p)
unfolding write_data ram_bank mem_go
write_data-SameInterface lane v p hg same = elim (Bool-cases (has p.addr 0x8000_0000)) [
  | inr off ↦ rw (write_data, off) (unchanged_bridge p p refl)
  | inl on ↦ elim (Bool-cases (bus_of p.addr != 0)) [
    | inl far ↦ rw (write_data, on, far) (unchanged_bridge p (note_write p) refl)
    | inr near ↦ elim (Option-cases (p.devs (dev_of p.addr))) [
      | inl none_there ↦
          rw (write_data, on, near, none_there) (unchanged_bridge p (note_write p) refl)
      | inr (d, there) ↦
          let found =
            write_data-found lane v p d
              (record { enabled = on; bus_zero = ground arith; present = there }) in
          subst (λ (q : PciConfig). SameInterface p q) (sym found)
            (write_dev-SameInterface (dev_of p.addr) (reg_of p.addr lane) v d (note_write p) there
              hg (ap (λ (q : PciConfig). q.mem_gen) (sym found) ∙ same))
    ]
  ]
]
