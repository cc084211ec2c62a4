-- ===== src/OpenPic/Priority.antt =====
-- The scan of machine/src/openpic.cpp by octets against the plain sweep that it replaced, and the
-- sweep against a description of the source to deliver.
use open_power_mac.Prelude.{
  ℕ, zero, suc, ◌+◌, ◌*◌, ◌≤◌, ◌<◌, ◌≡◌, refl, ◌∙◌, sym, ap, ◌↔◌, ◌⊎◌, inl, inr, Bool, true, false,
  Option, none, some, arith, ltb, ◌==◌, Bool-cases, Option-cases, ltb→lt, subst,
}
use open_power_mac.OpenPic.State.{OpenPic}
use open_power_mac.OpenPic.Scan.{
  Best, masked, priority, consider, scan, octet, scan_octets, highest_pending, cpu_line,
}

abbrev pub start : OpenPic → Best
start p = record { source = none; pri = p.task_pri }

-- The plain sweep over the 64 sources.
pub sweep : OpenPic → Option ℕ
sweep p = (scan p 64 0 (start p)).source

scan-add :
    (p : OpenPic) (n m s : ℕ) (b : Best) → scan p (n + m) s b ≡ scan p m (s + n) (scan p n s b)
unfolding scan
scan-add p zero m s b =
    let e : zero + m ≡ m = omega arith in let e' : s + zero ≡ s = omega arith in rw (e, e')
scan-add p (suc n) m s b =
    let e : suc n + m ≡ suc (n + m) = omega arith in
    let e' : s + suc n ≡ s + 1 + n = omega arith in
    rw (e, e') (scan-add p n m (s + 1) (consider p s b))

-- An octet of zero has no pending flag, so the sweep over it changes nothing.
scan_quiet : (p : OpenPic) (n s : ℕ) (b : Best) → octet p n s ≡ 0 → scan p n s b ≡ b
unfolding scan octet consider
scan_quiet p zero s b h = refl
scan_quiet p (suc n) s b h = elim (Bool-cases (p.pending s)) [
  | inl up ↦ absurd (omega (arith, rw up at h))
  | inr down ↦ rw down (scan_quiet p n (s + 1) b (omega arith))
]

scan_octets-eq-scan :
    (p : OpenPic) (n base : ℕ) (b : Best) → scan_octets p n base b ≡ scan p (n * 8) base b
unfolding scan_octets
scan_octets-eq-scan p zero base b = unfold scan in refl
scan_octets-eq-scan p (suc n) base b =
    let e : suc n * 8 ≡ 8 + n * 8 = omega arith in
    rw (e, scan-add p 8 (n * 8) base b)
      (elim (Bool-cases (octet p 8 base == 0)) [
        | inl quiet ↦
            rw (quiet, scan_quiet p 8 base b (ground arith)) (scan_octets-eq-scan p n (base + 8) b)
        | inr busy ↦ rw busy (scan_octets-eq-scan p n (base + 8) (scan p 8 base b))
      ])

-- Looking at the pending flags eight at a time finds what the sweep over all sources finds.
pub highest_pending-eq-sweep : (p : OpenPic) → highest_pending p ≡ sweep p
unfolding highest_pending sweep
highest_pending-eq-sweep p = ap (λ (b : Best). b.source) (scan_octets-eq-scan p 8 0 (start p))

-- A source that may interrupt: pending, not masked, above the task priority.
abbrev pub Deliverable : OpenPic → ℕ → Type 0
Deliverable p s = (p.pending s ≡ true) × (masked p s ≡ false) × (p.task_pri < priority p s)

-- `s` is deliverable, no other of the sources below `i` beats it, and none before it equals it.
abbrev pub IsHighest : OpenPic → ℕ → ℕ → Type 0
IsHighest p i s =
    (s < i)
    × Deliverable p s
    × ((t : ℕ) → t < i → Deliverable p t → priority p t ≤ priority p s)
    × ((t : ℕ) → t < s → Deliverable p t → priority p t < priority p s)

-- What the loop knows after the sources below `i`.
abbrev Scanned : OpenPic → ℕ → Option ℕ → ℕ → Type 0
Scanned p i none pri = (pri ≡ p.task_pri) × ((t : ℕ) → t < i → ¬ (Deliverable p t))
Scanned p i (some s) pri = (pri ≡ priority p s) × IsHighest p i s

below_next : (t i : ℕ) → t < i + 1 → (t < i) ⊎ (t ≡ i)
below_next t i h = grind arith

-- A source that is skipped leaves what is known.
skipped :
    (p : OpenPic) (i : ℕ) (o : Option ℕ) (pri : ℕ)
    → (Deliverable p i → priority p i ≤ pri)
    → Scanned p i o pri
    → Scanned p (i + 1) o pri
skipped p i none pri low (e, h) = (
  e,
  λ t lt d. elim (below_next t i lt) [
    | inl l ↦ h t l d
    | inr q ↦
        let d' : Deliverable p i = subst (Deliverable p) q d in absurd (omega (arith, low d', d'.2))
  ],
)
skipped p i (some s) pri low (e, (below, d, all, first)) = (
  e,
  (
    omega arith,
    d,
    λ t lt dt. elim (below_next t i lt) [
      | inl l ↦ all t l dt
      | inr q ↦
          let dt' : Deliverable p i = subst (Deliverable p) q dt in rw q (omega (arith, low dt'))
    ],
    first,
  ),
)

-- A source that is taken beats what was known.
taken :
    (p : OpenPic) (i : ℕ) (o : Option ℕ) (pri : ℕ)
    → p.pending i ≡ true
    → masked p i ≡ false
    → pri < priority p i
    → Scanned p i o pri
    → IsHighest p (i + 1) i
taken p i none pri up open_ more (e, h) = (
  omega arith,
  (up, open_, omega arith),
  λ t lt d. elim (below_next t i lt) [ inl l ↦ absurd (h t l d) | inr q ↦ rw q (omega arith) ],
  λ t lt d. absurd (h t lt d),
)
taken p i (some s) pri up open_ more (e, (below, d, all, first)) = (
  omega arith,
  (up, open_, omega (arith, d.2)),
  λ t lt dt. elim (below_next t i lt) [
    | inl l ↦ omega (arith, all t l dt)
    | inr q ↦ rw q (omega arith)
  ],
  λ t lt dt. omega (arith, all t lt dt),
)

consider-Scanned :
    (p : OpenPic) (i : ℕ) (b : Best)
    → Scanned p i b.source b.pri
    → Scanned p (i + 1) (consider p i b).source (consider p i b).pri
unfolding consider
consider-Scanned p i b h = elim (Bool-cases (p.pending i)) [
  | inr down ↦ rw down (skipped p i b.source b.pri (λ d. cc (d.0)) h)
  | inl up ↦ elim (Bool-cases (masked p i)) [
    | inl hidden ↦ rw (up, hidden) (skipped p i b.source b.pri (λ d. cc (d.1)) h)
    | inr open_ ↦ elim (Bool-cases (ltb b.pri (priority p i))) [
      | inl more ↦
          rw (up, open_, more) (refl, taken p i b.source b.pri up open_ (ltb→lt _ _ more) h)
      | inr less ↦ rw (up, open_, less) (skipped p i b.source b.pri (λ d. ground arith) h)
    ]
  ]
]

scan-Scanned :
    (p : OpenPic) (n i : ℕ) (b : Best)
    → Scanned p i b.source b.pri
    → Scanned p (i + n) (scan p n i b).source (scan p n i b).pri
unfolding scan
scan-Scanned p zero i b h = let e : i + zero ≡ i = omega arith in rw e h
scan-Scanned p (suc n) i b h =
    let e : i + suc n ≡ i + 1 + n = omega arith in
    rw e (scan-Scanned p n (i + 1) (consider p i b) (consider-Scanned p i b h))

-- What `highest_pending` may return.
abbrev pub Chosen : OpenPic → Option ℕ → Type 0
Chosen p none = (t : ℕ) → t < 64 → ¬ (Deliverable p t)
Chosen p (some s) = IsHighest p 64 s

Chosen-of_Scanned : (p : OpenPic) (o : Option ℕ) (pri : ℕ) → Scanned p 64 o pri → Chosen p o
Chosen-of_Scanned p none pri h = h.1
Chosen-of_Scanned p (some s) pri h = h.1

-- `highest_pending` returns a deliverable source of the highest priority, the first of those of equal
-- priority, and nothing exactly when no source below 64 is deliverable.
pub highest_pending-Chosen : (p : OpenPic) → Chosen p (highest_pending p)
highest_pending-Chosen p =
    let b = scan p 64 0 (start p) in
    let known = scan-Scanned p 64 0 (start p) (refl, λ t lt d. absurd (omega (arith, lt))) in
    rw highest_pending-eq-sweep (unfold sweep in Chosen-of_Scanned p b.source b.pri known)

Chosen-some :
    (p : OpenPic) (o : Option ℕ)
    → Chosen p o
    → (elim o as (λ _. Bool) [ none ↦ false | some s ↦ true ] ≡ true)
      ↔ ((s : ℕ) × (s < 64) × Deliverable p s)
Chosen-some p none h = (λ e. cc, λ (s, lt, d). absurd (h s lt d))
Chosen-some p (some s) h = (λ e. (s, h.0, h.1), λ d. refl)

pub cpu_line_idle :
    (p : OpenPic)
    → p.in_service ≡ none
    → cpu_line p ≡ elim (highest_pending p) [ none ↦ false | some s ↦ true ]
unfolding cpu_line
cpu_line_idle p idle = ground arith

pub cpu_line_busy : (p : OpenPic) {t : ℕ} → p.in_service ≡ some t → cpu_line p ≡ false
unfolding cpu_line
cpu_line_busy p busy = ground arith

-- The processor's line is up exactly when nothing is in service and some source is deliverable.
pub cpu_line_iff :
    (p : OpenPic)
    → (cpu_line p ≡ true) ↔ ((p.in_service ≡ none) × ((s : ℕ) × (s < 64) × Deliverable p s))
cpu_line_iff p = elim (Option-cases p.in_service) [
  | inl idle ↦
      let both = Chosen-some p (highest_pending p) (highest_pending-Chosen p) in
      let eq = cpu_line_idle p idle in
      ((λ h. (idle, both.0 (sym eq ∙ h))), (λ (e, d). eq ∙ both.1 d))
  | inr (t, busy) ↦ let eq = cpu_line_busy p busy in ((λ h. cc), (λ (e, d). cc))
]
