-- ===== src/Integer/Condition.antt =====
-- The condition register instructions and the thermal unit's comparison (core/src/exec_int.cpp).
use open_power_mac.Prelude.{
  ℕ, zero, suc, ◌-◌, ◌*◌, Bool, not, ◌&&◌, ◌||◌, same, has, bit_and, bit_or, if◌then◌else◌, ltb,
  shl32, not32, ◌>>>◌, update,
}
use open_power_mac.Bits.{f_rt, f_ra, f_rb, f_crfd, f_crfs, f_crm}
use open_power_mac.Cpu.{CpuState, set_cr_field, cr_field}
use open_power_mac.Integer.Helpers.{set_gpr, cr_bit, set_cr_bit}

unfoldable pub h_mcrf : ℕ → CpuState → CpuState
h_mcrf i s = set_cr_field (f_crfd i) (cr_field (f_crfs i) s) s

-- The CROP macro.
unfoldable pub cr_op : (Bool → Bool → Bool) → ℕ → CpuState → CpuState
cr_op f i s = set_cr_bit (f_rt i) (f (cr_bit s (f_ra i)) (cr_bit s (f_rb i))) s

unfoldable pub h_crand : ℕ → CpuState → CpuState
h_crand = cr_op (λ a b. a && b)

unfoldable pub h_cror : ℕ → CpuState → CpuState
h_cror = cr_op (λ a b. a || b)

unfoldable pub h_crxor : ℕ → CpuState → CpuState
h_crxor = cr_op (λ a b. not (same a b))

unfoldable pub h_crnand : ℕ → CpuState → CpuState
h_crnand = cr_op (λ a b. not (a && b))

unfoldable pub h_crnor : ℕ → CpuState → CpuState
h_crnor = cr_op (λ a b. not (a || b))

unfoldable pub h_creqv : ℕ → CpuState → CpuState
h_creqv = cr_op same

unfoldable pub h_crandc : ℕ → CpuState → CpuState
h_crandc = cr_op (λ a b. a && not b)

unfoldable pub h_crorc : ℕ → CpuState → CpuState
h_crorc = cr_op (λ a b. a || not b)

unfoldable pub h_mfcr : ℕ → CpuState → CpuState
h_mfcr i s = set_gpr (f_rt i) s.cr s

-- n fields from one on: those that the mask names are taken from the value.
unfoldable pub move_fields : ℕ → ℕ → ℕ → ℕ → ℕ → ℕ
move_fields zero f crm v cr = cr
move_fields (suc n) f crm v cr =
    let field = shl32 0xf ((7 - f) * 4) in
    let cr' =
      if has crm (0x80 >>> f) then bit_or (bit_and cr (not32 field)) (bit_and v field) else cr in
    move_fields n (suc f) crm v cr'

unfoldable pub h_mtcrf : ℕ → CpuState → CpuState
h_mtcrf i s = record s { cr = move_fields 8 0 (f_crm i) (s.gpr (f_rt i)) s.cr }

unfoldable pub h_mcrxr : ℕ → CpuState → CpuState
h_mcrxr i s =
    let s' = set_cr_field (f_crfd i) (s.xer >>> 28) s in
    record s' { xer = bit_and s'.xer 0x0fff_ffff }

-- One threshold of the thermal unit: TIN and TIV anew, against the temperature of 45 degrees.
unfoldable pub threshold_status : Bool → ℕ → ℕ
threshold_status enabled r0 =
    let r = bit_and r0 (not32 0xc000_0000) in
    let threshold = bit_and (r >>> 23) 0x7f in
    let hit = if has r 4 then ltb 45 threshold else ltb threshold 45 in
    let r' = if hit then bit_or r 0x8000_0000 else r in
    if not enabled || not (has r 1) then r else bit_or r' 0x4000_0000

unfoldable pub thrm_update : CpuState → CpuState
thrm_update s =
    let enabled = has (s.thrm 2) 1 in
    let first = update s.thrm 0 (threshold_status enabled (s.thrm 0)) in
    record s { thrm = update first 1 (threshold_status enabled (first 1)) }
