-- ===== src/Cuda/Writes.antt =====
-- What a packet may change in the Cuda, and how long its reply is (machine/src/cuda.cpp).
use open_power_mac.Prelude.{ℕ, ◌≤◌, ◌<◌, ◌≡◌, ◌⊎◌, List, length, get_or}
use open_power_mac.Cuda.Packets.{Cuda}

abbrev pub at : List ℕ → ℕ → ℕ
at pkt i = get_or pkt i 0

-- The parameter memory changes at the address of a whole SET_PRAM and takes its byte, the clock's offset
-- changes with a whole SET_TIME, and the reply has a header and at most the 64 bytes of a DIMM's
-- description.
pub record Wrote (pkt : List ℕ) (s s' : Cuda) : Type 0 where
  pub pram :
      (i : ℕ)
      → (s'.pram i ≡ s.pram i)
        ⊎ ((3 < length pkt)
            × (at pkt 0 ≡ 1)
            × (at pkt 1 ≡ 0x0c)
            × (at pkt 2 ≡ i)
            × (s'.pram i ≡ at pkt 3))
  pub offset :
      (s'.time_offset ≡ s.time_offset) ⊎ ((5 < length pkt) × (at pkt 0 ≡ 1) × (at pkt 1 ≡ 9))
  pub header : 3 ≤ length s'.resp
  pub short : length s'.resp ≤ 67
