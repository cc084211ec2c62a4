-- ===== src/OpenPic/State.antt =====
-- The controller's state (machine/include/opm/openpic.hpp) and the byte swap at its edge.
-- `in_service` is the source in service, `none` for the -1 of the source. `stamp` is what the clock
-- pointer points at, `none` for a null pointer. The trace counter and its printing are left out: they
-- touch nothing else.
use open_power_mac.Prelude.{
  ℕ, Bool, false, Option, none, some, List, [], ◌∷◌, ◌++◌, bit_and, bit_or, if◌then◌else◌, ltb,
  length, shl32, ◌>>>◌,
}

pub record Unc : Type 0 where
  pub at : ℕ
  pub off : ℕ
  pub val : ℕ

-- 'v' a vector-priority write, 'a' an acknowledge, 'e' an end of interrupt.
pub data EvKind : Type 0 where
  vp_write ack eoi : EvKind

pub record Ev : Type 0 where
  pub at : ℕ
  pub kind : EvKind
  pub val : ℕ

pub record OpenPic : Type 0 where
  pub vp : ℕ → ℕ
  pub dest : ℕ → ℕ
  pub line : ℕ → Bool
  pub pending : ℕ → Bool
  pub task_pri : ℕ
  pub spurious : ℕ
  pub in_service : Option ℕ
  pub global : ℕ → ℕ
  pub unclaimed : List Unc
  pub log : List Ev
  pub raise_count : ℕ → ℕ
  pub stamp : Option ℕ

abbrev pub sources : ℕ
sources = 64

-- Reset: everything masked until the task priority is lowered.
abbrev pub reset : OpenPic
reset = record {
  vp = λ s. 0;
  dest = λ s. 0;
  line = λ s. false;
  pending = λ s. false;
  task_pri = 0xf;
  spurious = 0xff;
  in_service = none;
  global = λ i. 0;
  unclaimed = [];
  log = [];
  raise_count = λ s. 0;
  stamp = none;
}

unfoldable pub swap32 : ℕ → ℕ
swap32 v =
    bit_or (bit_or (bit_or (v >>> 24) (bit_and (v >>> 8) 0xff00)) (bit_and (shl32 v 8) 0xff_0000))
      (shl32 v 24)

unfoldable pub now : OpenPic → ℕ
now p = elim p.stamp [ none ↦ 0 | some t ↦ t ]

-- The log holds 512 events at most, the list of unclaimed writes 256.
unfoldable pub note : EvKind → ℕ → OpenPic → List Ev
unfolding now
note k v p =
    if ltb (length p.log) 512 then p.log ++ record { at = now p; kind = k; val = v } ∷ [] else p.log
