-- ===== src/Cpu/Cause.antt =====
-- The cause bits that a program exception leaves in SRR1 (core/include/opm/cpu.hpp).
use open_power_mac.Prelude.{ℕ}

abbrev pub illegal : ℕ
illegal = 0x0008_0000

abbrev pub privileged : ℕ
privileged = 0x0004_0000

abbrev pub trap : ℕ
trap = 0x0002_0000
