-- ===== src/Cpu/Msr.antt =====
-- The bits of the machine state register (namespace msr of core/include/opm/cpu.hpp).
use open_power_mac.Prelude.{ℕ}

abbrev pub vec : ℕ
vec = 0x0200_0000

abbrev pub pow : ℕ
pow = 0x0004_0000

abbrev pub ile : ℕ
ile = 0x0001_0000

abbrev pub ee : ℕ
ee = 0x8000

abbrev pub pr : ℕ
pr = 0x4000

abbrev pub fp : ℕ
fp = 0x2000

abbrev pub me : ℕ
me = 0x1000

abbrev pub se : ℕ
se = 0x400

abbrev pub be : ℕ
be = 0x200

abbrev pub ip : ℕ
ip = 0x40

abbrev pub ir : ℕ
ir = 0x20

abbrev pub dr : ℕ
dr = 0x10

abbrev pub le : ℕ
le = 0x1

-- All the bits that the register has.
abbrev pub valid : ℕ
valid = 0x0205_ff77
