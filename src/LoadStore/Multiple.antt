-- ===== src/LoadStore/Multiple.antt =====
-- The multiple, string, reservation and external control accesses (core/src/exec_int.cpp). A fault partway
-- leaves the earlier accesses done.
use open_power_mac.Prelude.{
  ℕ, zero, suc, ◌-◌, Bool, true, false, none, some, not, ◌||◌, ◌==◌, ◌!=◌, has, bit_and, bit_or,
  if◌then◌else◌, shl32, add32, sub32, not32, u8, u32, ◌>>>◌,
}
use open_power_mac.Bits.{f_rt, f_ra, f_nb, align_dsisr}
use open_power_mac.Cpu.{CpuState, raise_exc, alignment, dsi, set_cr_field}
use open_power_mac.Cpu.Msr
use open_power_mac.Mmu.Memory.{Memory, Machine}
use open_power_mac.Mmu.{read_v, write_v, translate}
use open_power_mac.Integer.{set_gpr, gpr0, ea_d, ea_x}

abbrev with_state : {M : Type 0} → (CpuState → CpuState) → Machine M → Machine M
with_state f m = record m { cpu = record (m.cpu) { st = f m.cpu.st } }

-- The alignment exception of an instruction at an address.
unfoldable pub raise_align : {M : Type 0} → ℕ → ℕ → Machine M → Machine M
raise_align insn ea m =
    let m' = with_state (λ s. record s { dar = ea; dsisr = align_dsisr insn }) m in
    record m' { cpu = raise_exc alignment (sub32 m'.cpu.st.pc 4) 0 m'.cpu }

-- The data storage exception of an external control access while EAR[E] is clear.
unfoldable pub external_off : {M : Type 0} → ℕ → ℕ → Machine M → Machine M
external_off ea status m =
    let m' = with_state (λ s. record s { dar = ea; dsisr = status }) m in
    record m' { cpu = raise_exc dsi (sub32 m'.cpu.st.pc 4) 0 m'.cpu }

abbrev little : {M : Type 0} → Machine M → Bool
little m = has m.cpu.st.msr Msr.le

module _ {M : Type 0} (mm : Memory M) where
  -- n registers from r on.
  unfoldable pub load_multiple : ℕ → ℕ → ℕ → Machine M → Machine M
  load_multiple zero r ea m = m
  load_multiple (suc n) r ea m =
      let (v, m') = read_v mm ea 4 m in
      elim v [
        | none ↦ m'
        | some x ↦ load_multiple n (suc r) (add32 ea 4) (with_state (set_gpr r (u32 x)) m')
      ]

  unfoldable pub h_lmw : ℕ → Machine M → Machine M
  h_lmw i m =
      let ea = ea_d m.cpu.st i in
      if has ea 3 || little m then raise_align i ea m else load_multiple (32 - f_rt i) (f_rt i) ea m

  unfoldable pub store_multiple : ℕ → ℕ → ℕ → Machine M → Machine M
  store_multiple zero r ea m = m
  store_multiple (suc n) r ea m =
      let (done, m') = write_v mm ea 4 (m.cpu.st.gpr r) m in
      elim done [ true ↦ store_multiple n (suc r) (add32 ea 4) m' | false ↦ m' ]

  unfoldable pub h_stmw : ℕ → Machine M → Machine M
  h_stmw i m =
      let ea = ea_d m.cpu.st i in
      if has ea 3 || little m
      then raise_align i ea m
      else store_multiple (32 - f_rt i) (f_rt i) ea m

  -- n bytes into register r from the shift on; a register that is begun is cleared first.
  unfoldable pub load_bytes : ℕ → ℕ → ℕ → ℕ → Machine M → Machine M
  load_bytes zero r sh ea m = m
  load_bytes (suc n) r sh ea m =
      let (v, m') = read_v mm ea 1 m in
      let next = if sh == 0 then bit_and (suc r) 31 else r in
      elim v [
        | none ↦ m'
        | some x ↦
            let m1 = with_state (λ s. set_gpr r (bit_or (s.gpr r) (shl32 (u32 x) sh)) s) m' in
            let m2 =
              if sh == 0 then (if n != 0 then with_state (set_gpr next 0) m1 else m1) else m1 in
            load_bytes n next (if sh == 0 then 24 else sh - 8) (add32 ea 1) m2
      ]

  unfoldable pub load_string : ℕ → ℕ → ℕ → Machine M → Machine M
  load_string rt ea n m = load_bytes n rt 24 ea (if n != 0 then with_state (set_gpr rt 0) m else m)

  unfoldable pub store_bytes : ℕ → ℕ → ℕ → ℕ → Machine M → Machine M
  store_bytes zero r sh ea m = m
  store_bytes (suc n) r sh ea m =
      let (done, m') = write_v mm ea 1 (u8 (m.cpu.st.gpr r >>> sh)) m in
      elim done [
        | false ↦ m'
        | true ↦
            store_bytes n (if sh == 0 then bit_and (suc r) 31 else r)
              (if sh == 0 then 24 else sh - 8) (add32 ea 1) m'
      ]

  abbrev immediate_count : ℕ → ℕ
  immediate_count i = if f_nb i != 0 then f_nb i else 32

  unfoldable pub h_lswi : ℕ → Machine M → Machine M
  h_lswi i m =
      let ea = gpr0 m.cpu.st (f_ra i) in
      if little m then raise_align i ea m else load_string (f_rt i) ea (immediate_count i) m

  unfoldable pub h_stswi : ℕ → Machine M → Machine M
  h_stswi i m =
      let ea = gpr0 m.cpu.st (f_ra i) in
      if little m then raise_align i ea m else store_bytes (immediate_count i) (f_rt i) 24 ea m

  unfoldable pub h_lswx : ℕ → Machine M → Machine M
  h_lswx i m =
      let ea = ea_x m.cpu.st i in
      if little m then raise_align i ea m else load_string (f_rt i) ea (bit_and m.cpu.st.xer 0x7f) m

  unfoldable pub h_stswx : ℕ → Machine M → Machine M
  h_stswx i m =
      let ea = ea_x m.cpu.st i in
      if little m
      then raise_align i ea m
      else store_bytes (bit_and m.cpu.st.xer 0x7f) (f_rt i) 24 ea m

  unfoldable pub h_lwarx : ℕ → Machine M → Machine M
  h_lwarx i m =
      let ea = ea_x m.cpu.st i in
      let (place, m1) = translate mm (record { ea = ea; write = false; fetch = false }) m in
      let (v, m2) = read_v mm ea 4 m1 in
      if has ea 3 then raise_align i ea m else elim place [
        | none ↦ m1
        | some (pa, wimg) ↦ elim v [
          | none ↦ m2
          | some x ↦
              with_state
                (λ s.
                  set_gpr (f_rt i) (u32 x)
                    (record s { resv_valid = true; resv_addr = bit_and pa (not32 31) }))
                m2
        ]
      ]

  -- The end of a stwcx. that went through.
  abbrev conclude : Bool → Machine M → Machine M
  conclude ok = with_state (λ s.
      set_cr_field 0 (bit_or (if ok then 2 else 0) (bit_and (s.xer >>> 31) 1))
        (record s { resv_valid = false }))

  unfoldable pub h_stwcx : ℕ → Machine M → Machine M
  h_stwcx i m =
      let ea = ea_x m.cpu.st i in
      let (place, m1) = translate mm (record { ea = ea; write = true; fetch = false }) m in
      let ok = m1.cpu.st.resv_valid in
      let (done, m2) = write_v mm ea 4 (m1.cpu.st.gpr (f_rt i)) m1 in
      if has ea 3 then raise_align i ea m else elim place [
        | none ↦ m1
        | some p ↦ if not ok then conclude false m1 else if done then conclude true m2 else m2
      ]

  unfoldable pub h_eciwx : ℕ → Machine M → Machine M
  h_eciwx i m =
      let ea = ea_x m.cpu.st i in
      let (v, m') = read_v mm ea 4 m in
      if has ea 3
      then raise_align i ea m
      else if not (has m.cpu.st.ear 0x8000_0000)
      then external_off ea 0x0010_0000 m
      else elim v [ none ↦ m' | some x ↦ with_state (set_gpr (f_rt i) (u32 x)) m' ]

  unfoldable pub h_ecowx : ℕ → Machine M → Machine M
  h_ecowx i m =
      let ea = ea_x m.cpu.st i in
      if has ea 3
      then raise_align i ea m
      else if not (has m.cpu.st.ear 0x8000_0000)
      then external_off ea 0x0210_0000 m
      else (write_v mm ea 4 (m.cpu.st.gpr (f_rt i)) m).1
