-- ===== src/OpenPic/Scan.antt =====
-- highestPending and cpuLine of machine/src/openpic.cpp, with the scan by octets of pending flags.
use open_power_mac.Prelude.{
  ℕ, zero, suc, ◌+◌, ◌*◌, Bool, true, false, not, ◌||◌, Option, none, some, bit_and, if◌then◌else◌,
  ltb, ◌==◌, has, ◌>>>◌, flag,
}
use open_power_mac.OpenPic.State.{OpenPic}

pub record Best : Type 0 where
  pub source : Option ℕ
  pub pri : ℕ

abbrev pub masked : OpenPic → ℕ → Bool
masked p s = has (p.vp s) 0x8000_0000

abbrev pub priority : OpenPic → ℕ → ℕ
priority p s = bit_and (p.vp s >>> 16) 0xf

-- The body of the inner loop.
unfoldable pub consider : OpenPic → ℕ → Best → Best
consider p s b =
    if not (p.pending s) || masked p s
    then b
    else if ltb b.pri (priority p s)
    then record { source = some s; pri = priority p s }
    else b

-- `n` sources from `s` on.
unfoldable pub scan : OpenPic → ℕ → ℕ → Best → Best
scan p zero s b = b
scan p (suc n) s b = scan p n (s + 1) (consider p s b)

-- The `n` flags from `s` on, copied into one integer, a byte for each.
unfoldable pub octet : OpenPic → ℕ → ℕ → ℕ
octet p zero s = 0
octet p (suc n) s = flag (p.pending s) + 0x100 * octet p n (s + 1)

-- The outer loop, with `n` octets left.
unfoldable pub scan_octets : OpenPic → ℕ → ℕ → Best → Best
scan_octets p zero base b = b
scan_octets p (suc n) base b =
    scan_octets p n (base + 8) (if octet p 8 base == 0 then b else scan p 8 base b)

unfoldable pub highest_pending : OpenPic → Option ℕ
highest_pending p = (scan_octets p 8 0 (record { source = none; pri = p.task_pri })).source

unfoldable pub cpu_line : OpenPic → Bool
cpu_line p = elim p.in_service [
  | none ↦ elim (highest_pending p) [ none ↦ false | some s ↦ true ]
  | some s ↦ false
]
