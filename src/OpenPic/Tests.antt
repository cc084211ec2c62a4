-- ===== src/OpenPic/Tests.antt =====
-- Runs of the interrupt controller: a level source and an edge source through the guest's accesses,
-- and the theorems at concrete controllers.
use open_power_mac.Prelude.{
  ℕ, ◌≡◌, ◌<◌, refl, Bool, true, false, none, some, arith, ◌↔◌, ◌^◌, update,
}
use open_power_mac.Prelude.BitLaws.{bit}
use open_power_mac.OpenPic.State.{OpenPic, reset, swap32, note}
use open_power_mac.OpenPic.Scan.{consider, scan, octet, scan_octets, highest_pending, cpu_line}
use open_power_mac.OpenPic.Registers.{
  take_source, iack, read, read_native, write, write_native, write_vp, set_line, raise_line,
}
use open_power_mac.OpenPic.Priority
use open_power_mac.OpenPic.Priority.{
  highest_pending-eq-sweep, highest_pending-Chosen, Chosen, Deliverable, cpu_line_iff,
}
use open_power_mac.OpenPic.Delivery.{
  Taken, iack-Taken, level_returns, edge_consumed, masked_raise_kept, eoi_offset,
}
use open_power_mac.OpenPic.Window.{read-write_vp, vp_offset}
use open_power_mac.OpenPic.Invariant.{IsValid, accesses-IsValid, reset-IsValid}

-- Source 10 enabled as a level source of priority 8 and vector 0x2a, source 3 as an edge source of
-- priority 5 and vector 0x17, the task priority lowered to 2.
abbrev enabled : OpenPic
enabled = record reset { vp = update (update reset.vp 10 0x48_002a) 3 0x5_0017; task_pri = 2 }

abbrev level_up : OpenPic
level_up = record enabled {
  line = update reset.line 10 true;
  pending = update reset.pending 10 true;
}

abbrev edge_up : OpenPic
edge_up = record enabled { line = update reset.line 3 true; pending = update reset.pending 3 true }

written_by_the_guest :
    (write (write reset 0x1_0140 0x2a00_4800 4) 0x2_0080 0x0200_0000 4).task_pri ≡ 2
unfolding write write_native write_vp swap32
written_by_the_guest = refl

raised : cpu_line (set_line enabled 10 true) ≡ true
unfolding cpu_line highest_pending scan_octets octet scan consider set_line raise_line
raised = refl

acknowledged : (read (set_line enabled 10 true) 0x2_00a0 4).0 ≡ 0x2a00_0000
unfolding read read_native iack take_source highest_pending scan_octets octet scan consider set_line
    raise_line swap32 note
acknowledged = refl

level_highest : highest_pending level_up ≡ some 10
unfolding highest_pending scan_octets octet scan consider
level_highest = refl

level_line : cpu_line level_up ≡ true
unfolding cpu_line highest_pending scan_octets octet scan consider
level_line = refl

edge_highest : highest_pending edge_up ≡ some 3
unfolding highest_pending scan_octets octet scan consider
edge_highest = refl

iack-Taken_example : (s : ℕ) × Taken level_up s (iack level_up)
iack-Taken_example = iack-Taken level_up level_line

level_returns_example : cpu_line (write_native (iack level_up).1 eoi_offset 0) ≡ true
level_returns_example = level_returns level_up 10 0 level_line level_highest refl refl

edge_consumed_example : ¬ (Deliverable (write_native (iack edge_up).1 eoi_offset 0) 3)
edge_consumed_example = edge_consumed edge_up 3 0 edge_highest refl

-- Source 20 masked, edge-triggered.
abbrev shut : OpenPic
shut = record enabled { vp = update enabled.vp 20 0x8009_0033 }

masked_raise_kept_example :
    (cpu_line (set_line shut 20 true) ≡ cpu_line shut)
    × (cpu_line (write_vp (set_line (set_line shut 20 true) 20 false) 20 0x9_0033) ≡ true)
masked_raise_kept_example =
    masked_raise_kept shut 20 0x9_0033 (omega arith) refl refl refl refl refl (omega arith)

highest_pending-Chosen_example : Chosen level_up (highest_pending level_up)
highest_pending-Chosen_example = highest_pending-Chosen level_up

highest_pending-eq-sweep_example : highest_pending level_up ≡ Priority.sweep level_up
highest_pending-eq-sweep_example = highest_pending-eq-sweep level_up

cpu_line_iff_example :
    (cpu_line level_up ≡ true)
    ↔ ((level_up.in_service ≡ none) × ((s : ℕ) × (s < 64) × Deliverable level_up s))
cpu_line_iff_example = cpu_line_iff level_up

read-write_vp_example :
    bit (read_native (write_native level_up (vp_offset 10) 0x8048_002a) (vp_offset 10)).0 31
    ≡ bit 0x8048_002a 31
read-write_vp_example = read-write_vp level_up 10 0x8048_002a 31 (omega arith) (omega arith)

accesses-IsValid_example :
    ((off len : ℕ) → IsValid (read reset off len).1)
    × ((off n len : ℕ) → n < 2 ^ 32 → IsValid (write reset off n len))
    × ((s : ℕ) (level : Bool) → IsValid (set_line reset s level))
accesses-IsValid_example = accesses-IsValid reset reset-IsValid
