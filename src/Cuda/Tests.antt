-- ===== src/Cuda/Tests.antt =====
-- Runs of the Cuda.
use open_power_mac.Prelude.{◌≡◌, refl, false, [], ◌∷◌, arith}
use open_power_mac.Cuda.Packets.{Cuda, host_packet, pseudo, adb, spd_from, spd_sum, reply}
use open_power_mac.Cuda.Laws.{get_time-set_time}

abbrev fresh : Cuda
fresh = record { pram = λ i. 0; resp = []; cmd_log = λ k. 0; autopoll = false; time_offset = 0 }

-- The end of the DIMM's description, with its checksum.
spd_tail :
    (host_packet (1 ∷ 0x25 ∷ 0xa0 ∷ 62 ∷ 0xa1 ∷ []) fresh).resp ≡ 1 ∷ 0 ∷ 0x25 ∷ 0x12 ∷ 0xd8 ∷ []
unfolding host_packet pseudo spd_from spd_sum reply
spd_tail = refl

no_device : (host_packet (0 ∷ 0x5f ∷ []) fresh).resp ≡ 0 ∷ 1 ∷ 0x5f ∷ []
unfolding host_packet adb reply
no_device = refl

get_time-set_time_example :
    (host_packet (1 ∷ 3 ∷ []) (host_packet (1 ∷ 9 ∷ 1 ∷ 2 ∷ 3 ∷ 4 ∷ []) fresh)).resp
    ≡ 1 ∷ 0 ∷ 3 ∷ 1 ∷ 2 ∷ 3 ∷ 4 ∷ []
get_time-set_time_example =
    get_time-set_time 1 2 3 4 fresh (omega arith) (omega arith) (omega arith) (omega arith)
