-- ===== src/OpenPic/Delivery.antt =====
-- How an interrupt travels through machine/src/openpic.cpp: a line raised, the acknowledge, the end
-- of interrupt, and the source coming back or not.
use open_power_mac.Prelude.{
  ℕ, ◌<◌, ◌≡◌, refl, ◌∙◌, sym, ◌≢◌, Bool, true, false, ◌&&◌, none, some, arith, Option-cases, inl,
  inr, bit_and, has, not32, subst, ◌/◌, ◌^◌, ◌↔◌, ap, leb, update, update_same, update_other,
  dec_eq,
}
use open_power_mac.Prelude.BitLaws.{has-bit, bit-and, bit-le-one}
use open_power_mac.OpenPic.State.{OpenPic}
use open_power_mac.OpenPic.Scan.{masked, highest_pending, cpu_line}
use open_power_mac.OpenPic.Registers.{
  iack, take_source, write_native, write_vp, set_line, raise_line,
}
use open_power_mac.OpenPic.Window.{written_vp}
use open_power_mac.OpenPic.Priority.{
  Deliverable, IsHighest, Chosen, highest_pending-Chosen, cpu_line_iff, cpu_line_idle,
  cpu_line_busy,
}

-- A level-sensitive source (vector and priority bit 22).
abbrev pub level_sensitive : OpenPic → ℕ → Bool
level_sensitive p s = has (p.vp s) 0x0040_0000

abbrev pub eoi_offset : ℕ
eoi_offset = 0x2_00b0

-- What an acknowledge does to the source `s` that it takes.
pub record Taken (p : OpenPic) (s : ℕ) (r : ℕ × OpenPic) : Type 0 where
  pub highest : IsHighest p 64 s
  pub vector : r.0 ≡ bit_and (p.vp s) 0xff
  pub serving : r.1.in_service ≡ some s
  pub line_down : cpu_line r.1 ≡ false
  pub still_pending : r.1.pending s ≡ (level_sensitive p s && p.line s)
  pub others : (t : ℕ) → t ≢ s → r.1.pending t ≡ p.pending t

take_source-Taken : (p : OpenPic) (s : ℕ) → IsHighest p 64 s → Taken p s (take_source p s)
unfolding take_source
take_source-Taken p s high = record {
  highest = high;
  vector = refl;
  serving = refl;
  line_down = cpu_line_busy _ refl;
  still_pending = ground (arith, high.1);
  others = λ t ne. ground arith;
}

pub iack-some : (p : OpenPic) {s : ℕ} → highest_pending p ≡ some s → iack p ≡ take_source p s
unfolding iack
iack-some p e = rw (e, iack)

pub iack-none : (p : OpenPic) → highest_pending p ≡ none → iack p ≡ (p.spurious, p)
unfolding iack
iack-none p e = rw (e, iack)

-- An acknowledge while the processor's line is up takes the highest deliverable source: it returns its
-- vector, puts it in service, takes the line down, and leaves the source pending exactly if it is
-- level-sensitive and its line is still high. No other source's pending flag is touched.
pub iack-Taken : (p : OpenPic) → cpu_line p ≡ true → (s : ℕ) × Taken p s (iack p)
iack-Taken p h = elim (Option-cases (highest_pending p)) [
  | inl empty ↦ let (idle, up) = (cpu_line_iff p).0 h in cc (cpu_line_idle p idle, empty)
  | inr (s, e) ↦
      let high : IsHighest p 64 s = subst (Chosen p) e (highest_pending-Chosen p) in
      (s, rw (iack-some p e) (take_source-Taken p s high))
]

eoi_lem :
    (p : OpenPic) (v : ℕ)
    → let q = write_native p eoi_offset v in
      (q.in_service ≡ none)
      × (q.pending ≡ p.pending)
      × (q.line ≡ p.line)
      × (q.vp ≡ p.vp)
      × (q.task_pri ≡ p.task_pri)
unfolding write_native
eoi_lem p v = (refl, refl, refl, refl, refl)

-- Until its device lowers the line, a level-sensitive source that was acknowledged interrupts again as
-- soon as its interrupt is ended.
pub level_returns :
    (p : OpenPic) (s v : ℕ)
    → cpu_line p ≡ true
    → highest_pending p ≡ some s
    → level_sensitive p s ≡ true
    → p.line s ≡ true
    → cpu_line (write_native (iack p).1 eoi_offset v) ≡ true
unfolding take_source write_native
level_returns p s v up e level high =
    let chosen : IsHighest p 64 s = subst (Chosen p) e (highest_pending-Chosen p) in
    rw (iack-some p e)
      ((cpu_line_iff _).1 (refl, (s, chosen.0, (ground (arith, chosen.1), chosen.1.1, chosen.1.2))))

-- An edge-triggered source interrupts once: after its acknowledge and the end of its interrupt it is
-- not deliverable.
pub edge_consumed :
    (p : OpenPic) (s v : ℕ)
    → highest_pending p ≡ some s
    → level_sensitive p s ≡ false
    → ¬ (Deliverable (write_native (iack p).1 eoi_offset v) s)
unfolding take_source write_native
edge_consumed p s v e edge = rw (iack-some p e) (λ d. ground (arith, d.0))

still_open : (n m : ℕ) → has n 0x8000_0000 ≡ false → has (bit_and n m) 0x8000_0000 ≡ false
still_open n m h =
    has-bit 31 (bit_and n m)
    ∙ ground (arith, bit-and n m 31, sym (has-bit 31 n) ∙ h, bit-le-one n 31, bit-le-one m 31)

unmasked_lem :
    (p : OpenPic) (s n : ℕ) → has n 0x8000_0000 ≡ false → masked (write_vp p s n) s ≡ false
unmasked_lem p s n h = rw (written_vp p s n) (still_open n (not32 0x4000_0000) h)

same_truth : (a b : Bool) → (a ≡ true → b ≡ true) → (b ≡ true → a ≡ true) → a ≡ b
same_truth true b h k = sym (h refl)
same_truth false true h k = k refl
same_truth false false h k = refl

-- What a line that goes up changes.
record Raised (p : OpenPic) (s : ℕ) (q : OpenPic) : Type 0 where
  pending : q.pending ≡ update p.pending s true
  line : q.line ≡ update p.line s true
  vp : q.vp ≡ p.vp
  task_pri : q.task_pri ≡ p.task_pri
  in_service : q.in_service ≡ p.in_service

set_line-Raised : (p : OpenPic) (s : ℕ) → s < 64 → p.line s ≡ false → Raised p s (set_line p s true)
unfolding set_line raise_line
set_line-Raised p s lt low =
    let inside : leb 64 s ≡ false = ground arith in
    rw (set_line, raise_line, inside, low)
      (record { pending = refl; line = refl; vp = refl; task_pri = refl; in_service = refl })

module _ (p : OpenPic) (s : ℕ) (shut : masked p s ≡ true) (q : OpenPic) (r : Raised p s q) where
  -- A source that is raised while it is masked is not deliverable; the others are as before.
  raised-Deliverable : (t : ℕ) → Deliverable q t ↔ Deliverable p t
  raised-Deliverable t = elim (dec_eq t s) [
    | yes e ↦
        let shut_p : masked p t ≡ true = rw e shut in
        let shut_q : masked q t ≡ true = rw r.vp shut_p in
        ((λ d. cc (shut_q, d.1)), (λ d. cc (shut_p, d.1)))
    | no ne ↦
        let pend : q.pending t ≡ p.pending t =
          ap (λ (f : ℕ → Bool). f t) r.pending ∙ update_other p.pending s t true ne in
        rw (r.vp, r.task_pri, pend) ((λ d. d), (λ d. d))
  ]

  raised_quiet : cpu_line q ≡ cpu_line p
  raised_quiet =
      same_truth (cpu_line q) (cpu_line p)
        (λ up.
          let (idle, (t, lt, d)) = (cpu_line_iff q).0 up in
          (cpu_line_iff p).1 (sym r.in_service ∙ idle, (t, lt, (raised-Deliverable t).0 d)))
        (λ up.
          let (idle, (t, lt, d)) = (cpu_line_iff p).0 up in
          (cpu_line_iff q).1 (r.in_service ∙ idle, (t, lt, (raised-Deliverable t).1 d)))

-- The line of an edge-triggered source that falls leaves its request.
fallen_edge :
    (q : OpenPic) (s : ℕ)
    → level_sensitive q s ≡ false
    → ((set_line q s false).pending ≡ q.pending)
      × ((set_line q s false).task_pri ≡ q.task_pri)
      × ((set_line q s false).in_service ≡ q.in_service)
unfolding set_line raise_line
fallen_edge q s edge = (ground arith, ground arith, ground arith)

-- The interrupt of a source that is edge-triggered and masked is not lost, although its line falls again
-- before the mask is lifted: raising it leaves the processor's line as it was, and lifting the mask with
-- a priority above the task priority, while nothing is in service, takes the processor's line up.
pub masked_raise_kept :
    (p : OpenPic) (s n : ℕ)
    → s < 64
    → masked p s ≡ true
    → level_sensitive p s ≡ false
    → p.line s ≡ false
    → p.in_service ≡ none
    → has n 0x8000_0000 ≡ false
    → p.task_pri < bit_and (bit_and n (not32 0x4000_0000) / 2 ^ 16) 0xf
    → (cpu_line (set_line p s true) ≡ cpu_line p)
      × (cpu_line (write_vp (set_line (set_line p s true) s false) s n) ≡ true)
unfolding write_vp
masked_raise_kept p s n lt shut edge low idle open_ above =
    let q = set_line p s true in
    let r : Raised p s q = set_line-Raised p s lt low in
    let f = fallen_edge q s (ap (λ (v : ℕ → ℕ). has (v s) 0x0040_0000) r.vp ∙ edge) in
    let kept : (set_line q s false).pending s ≡ true =
      ap (λ (g : ℕ → Bool). g s) (f.0 ∙ r.pending) ∙ update_same p.pending s true in
    (
      raised_quiet p s shut q r,
      (cpu_line_iff _).1 (
        f.2 ∙ r.in_service ∙ idle,
        (
          s,
          lt,
          (
            ground (arith, kept),
            unmasked_lem (set_line q s false) s n open_,
            ground (arith, f.1, r.task_pri, above),
          ),
        ),
      ),
    )
