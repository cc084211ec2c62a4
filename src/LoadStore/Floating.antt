-- ===== src/LoadStore/Floating.antt =====
-- The loads and stores of the floating registers (core/src/exec_int.cpp). An address that is not that
-- of a word is an alignment exception.
use open_power_mac.Prelude.{
  ℕ, Bool, true, false, none, some, has, bit_and, if◌then◌else◌, u32, update,
}
use open_power_mac.Bits.{f_rt, f_ra}
use open_power_mac.Cpu.{CpuState}
use open_power_mac.Mmu.Memory.{Memory, Machine}
use open_power_mac.Mmu.{read_v, write_v}
use open_power_mac.Integer.{set_gpr, ea_d, ea_x}
use open_power_mac.SoftFloat.{load_single, store_single}
use open_power_mac.LoadStore.Multiple.{raise_align}

abbrev in_state : {M : Type 0} → (CpuState → CpuState) → Machine M → Machine M
in_state f m = record m { cpu = record (m.cpu) { st = f m.cpu.st } }

abbrev set_fpr : ℕ → ℕ → CpuState → CpuState
set_fpr r v s = record s { fpr = update s.fpr r v }

abbrev update_ra : Bool → ℕ → ℕ → CpuState → CpuState
update_ra upd i ea s = if upd then set_gpr (f_ra i) ea s else s

abbrev single : ℕ → ℕ
single v = load_single (u32 v)

abbrev whole : ℕ → ℕ
whole v = v

abbrev low_word : ℕ → ℕ
low_word v = bit_and v 0xffff_ffff

module _ {M : Type 0} (mm : Memory M) where
  -- FLOAD(NAME, EAKIND, CONV, LEN, UPD).
  unfoldable pub float_load : (CpuState → ℕ → ℕ) → (ℕ → ℕ) → ℕ → Bool → ℕ → Machine M → Machine M
  float_load kind conv len upd i m =
      let ea = kind m.cpu.st i in
      let (v, m') = read_v mm ea len m in
      if has ea 3 then raise_align i ea m else elim v [
        | none ↦ m'
        | some x ↦ in_state (λ s. update_ra upd i ea (set_fpr (f_rt i) (conv x) s)) m'
      ]

  -- FSTORE(NAME, EAKIND, VAL, LEN, UPD).
  unfoldable pub float_store : (CpuState → ℕ → ℕ) → (ℕ → ℕ) → ℕ → Bool → ℕ → Machine M → Machine M
  float_store kind val len upd i m =
      let ea = kind m.cpu.st i in
      let (done, m') = write_v mm ea len (val (m.cpu.st.fpr (f_rt i))) m in
      if has ea 3 then raise_align i ea m else if done then in_state (update_ra upd i ea) m' else m'

  unfoldable pub h_lfs : ℕ → Machine M → Machine M
  h_lfs = float_load ea_d single 4 false

  unfoldable pub h_lfsu : ℕ → Machine M → Machine M
  h_lfsu = float_load ea_d single 4 true

  unfoldable pub h_lfsx : ℕ → Machine M → Machine M
  h_lfsx = float_load ea_x single 4 false

  unfoldable pub h_lfsux : ℕ → Machine M → Machine M
  h_lfsux = float_load ea_x single 4 true

  unfoldable pub h_lfd : ℕ → Machine M → Machine M
  h_lfd = float_load ea_d whole 8 false

  unfoldable pub h_lfdu : ℕ → Machine M → Machine M
  h_lfdu = float_load ea_d whole 8 true

  unfoldable pub h_lfdx : ℕ → Machine M → Machine M
  h_lfdx = float_load ea_x whole 8 false

  unfoldable pub h_lfdux : ℕ → Machine M → Machine M
  h_lfdux = float_load ea_x whole 8 true

  unfoldable pub h_stfs : ℕ → Machine M → Machine M
  h_stfs = float_store ea_d store_single 4 false

  unfoldable pub h_stfsu : ℕ → Machine M → Machine M
  h_stfsu = float_store ea_d store_single 4 true

  unfoldable pub h_stfsx : ℕ → Machine M → Machine M
  h_stfsx = float_store ea_x store_single 4 false

  unfoldable pub h_stfsux : ℕ → Machine M → Machine M
  h_stfsux = float_store ea_x store_single 4 true

  unfoldable pub h_stfd : ℕ → Machine M → Machine M
  h_stfd = float_store ea_d whole 8 false

  unfoldable pub h_stfdu : ℕ → Machine M → Machine M
  h_stfdu = float_store ea_d whole 8 true

  unfoldable pub h_stfdx : ℕ → Machine M → Machine M
  h_stfdx = float_store ea_x whole 8 false

  unfoldable pub h_stfdux : ℕ → Machine M → Machine M
  h_stfdux = float_store ea_x whole 8 true

  unfoldable pub h_stfiwx : ℕ → Machine M → Machine M
  h_stfiwx = float_store ea_x low_word 4 false
