-- ===== src/LoadStore.antt =====
-- The loads and stores of one register (core/src/exec_int.cpp). They act on the whole machine, through
-- the accessors of virtual memory; an access that faults writes no register.
pub mod Multiple
pub mod Floating
use open_power_mac.Prelude.{
  ℕ, none, some, bit_and, bit_or, if◌then◌else◌, shl32, u8, u16, u32, ◌>>>◌,
}
use open_power_mac.Bits.{f_rt, f_ra, sext16}
use open_power_mac.Cpu.{CpuState}
use open_power_mac.Mmu.Memory.{Memory, Machine}
use open_power_mac.Mmu.{read_v, write_v}
use open_power_mac.Integer.{set_gpr, ea_d, ea_x}

abbrev pub on_state : {M : Type 0} → (CpuState → CpuState) → Machine M → Machine M
on_state f m = record m { cpu = record (m.cpu) { st = f m.cpu.st } }

abbrev as_read : ℕ → ℕ
as_read v = v

unfoldable pub reverse32 : ℕ → ℕ
reverse32 v =
    bit_or
      (bit_or (bit_or (shl32 (bit_and v 0xff) 24) (shl32 (bit_and v 0xff00) 8))
        (bit_and (v >>> 8) 0xff00))
      (v >>> 24)

unfoldable pub reverse16 : ℕ → ℕ
reverse16 v = bit_or (shl32 (bit_and v 0xff) 8) (bit_and (v >>> 8) 0xff)

module _ {M : Type 0} (mm : Memory M) where
  -- LOAD(NAME, EAKIND, READER, XF): the address, the length and the value of the register.
  unfoldable pub load_op : (CpuState → ℕ → ℕ) → ℕ → (ℕ → ℕ) → ℕ → Machine M → Machine M
  load_op ea len xf i m =
      let (r, m') = read_v mm (ea m.cpu.st i) len m in
      elim r [ none ↦ m' | some v ↦ on_state (set_gpr (f_rt i) (xf (u32 v))) m' ]

  -- LOADU: the same with the address into rA afterwards.
  unfoldable pub load_update : (CpuState → ℕ → ℕ) → ℕ → (ℕ → ℕ) → ℕ → Machine M → Machine M
  load_update ea len xf i m =
      let a = ea m.cpu.st i in
      let (r, m') = read_v mm a len m in
      elim r [
        | none ↦ m'
        | some v ↦ on_state (λ s. set_gpr (f_ra i) a (set_gpr (f_rt i) (xf (u32 v)) s)) m'
      ]

  unfoldable pub store_op : (CpuState → ℕ → ℕ) → ℕ → (ℕ → ℕ) → ℕ → Machine M → Machine M
  store_op ea len xf i m = (write_v mm (ea m.cpu.st i) len (xf (m.cpu.st.gpr (f_rt i))) m).1

  unfoldable pub store_update : (CpuState → ℕ → ℕ) → ℕ → (ℕ → ℕ) → ℕ → Machine M → Machine M
  store_update ea len xf i m =
      let a = ea m.cpu.st i in
      let (done, m') = write_v mm a len (xf (m.cpu.st.gpr (f_rt i))) m in
      if done then on_state (set_gpr (f_ra i) a) m' else m'

  unfoldable pub h_lwz : ℕ → Machine M → Machine M
  h_lwz = load_op ea_d 4 as_read

  unfoldable pub h_lbz : ℕ → Machine M → Machine M
  h_lbz = load_op ea_d 1 as_read

  unfoldable pub h_lhz : ℕ → Machine M → Machine M
  h_lhz = load_op ea_d 2 as_read

  unfoldable pub h_lha : ℕ → Machine M → Machine M
  h_lha = load_op ea_d 2 sext16

  unfoldable pub h_lwzx : ℕ → Machine M → Machine M
  h_lwzx = load_op ea_x 4 as_read

  unfoldable pub h_lbzx : ℕ → Machine M → Machine M
  h_lbzx = load_op ea_x 1 as_read

  unfoldable pub h_lhzx : ℕ → Machine M → Machine M
  h_lhzx = load_op ea_x 2 as_read

  unfoldable pub h_lhax : ℕ → Machine M → Machine M
  h_lhax = load_op ea_x 2 sext16

  unfoldable pub h_lwzu : ℕ → Machine M → Machine M
  h_lwzu = load_update ea_d 4 as_read

  unfoldable pub h_lbzu : ℕ → Machine M → Machine M
  h_lbzu = load_update ea_d 1 as_read

  unfoldable pub h_lhzu : ℕ → Machine M → Machine M
  h_lhzu = load_update ea_d 2 as_read

  unfoldable pub h_lhau : ℕ → Machine M → Machine M
  h_lhau = load_update ea_d 2 sext16

  unfoldable pub h_lwzux : ℕ → Machine M → Machine M
  h_lwzux = load_update ea_x 4 as_read

  unfoldable pub h_lbzux : ℕ → Machine M → Machine M
  h_lbzux = load_update ea_x 1 as_read

  unfoldable pub h_lhzux : ℕ → Machine M → Machine M
  h_lhzux = load_update ea_x 2 as_read

  unfoldable pub h_lhaux : ℕ → Machine M → Machine M
  h_lhaux = load_update ea_x 2 sext16

  unfoldable pub h_stw : ℕ → Machine M → Machine M
  h_stw = store_op ea_d 4 as_read

  unfoldable pub h_stb : ℕ → Machine M → Machine M
  h_stb = store_op ea_d 1 u8

  unfoldable pub h_sth : ℕ → Machine M → Machine M
  h_sth = store_op ea_d 2 u16

  unfoldable pub h_stwx : ℕ → Machine M → Machine M
  h_stwx = store_op ea_x 4 as_read

  unfoldable pub h_stbx : ℕ → Machine M → Machine M
  h_stbx = store_op ea_x 1 u8

  unfoldable pub h_sthx : ℕ → Machine M → Machine M
  h_sthx = store_op ea_x 2 u16

  unfoldable pub h_stwu : ℕ → Machine M → Machine M
  h_stwu = store_update ea_d 4 as_read

  unfoldable pub h_stbu : ℕ → Machine M → Machine M
  h_stbu = store_update ea_d 1 u8

  unfoldable pub h_sthu : ℕ → Machine M → Machine M
  h_sthu = store_update ea_d 2 u16

  unfoldable pub h_stwux : ℕ → Machine M → Machine M
  h_stwux = store_update ea_x 4 as_read

  unfoldable pub h_stbux : ℕ → Machine M → Machine M
  h_stbux = store_update ea_x 1 u8

  unfoldable pub h_sthux : ℕ → Machine M → Machine M
  h_sthux = store_update ea_x 2 u16

  unfoldable pub h_lwbrx : ℕ → Machine M → Machine M
  h_lwbrx = load_op ea_x 4 reverse32

  unfoldable pub h_lhbrx : ℕ → Machine M → Machine M
  h_lhbrx = load_op ea_x 2 reverse16

  unfoldable pub h_stwbrx : ℕ → Machine M → Machine M
  h_stwbrx = store_op ea_x 4 reverse32

  unfoldable pub h_sthbrx : ℕ → Machine M → Machine M
  h_sthbrx = store_op ea_x 2 reverse16
