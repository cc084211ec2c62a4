-- ===== src/Cpu/Exceptions.antt =====
-- Cpu::raiseExc of core/src/exceptions.cpp.
use open_power_mac.Prelude.{
  ℕ, ◌+◌, Bool, true, false, bit_and, bit_or, if◌then◌else◌, has, not32, ◌>>>◌, update, u64,
}
use open_power_mac.Cpu.Msr
use open_power_mac.Cpu.State.{Cpu, CpuState, ExcRec, Exc, machine_check, vector_of}

abbrev pub is_machine_check : Exc → Bool
is_machine_check machine_check = true
is_machine_check _ = false

-- The machine state that a handler starts in.
unfoldable pub handler_msr : Exc → ℕ → ℕ
handler_msr v m =
    let kept = bit_and m (bit_or Msr.me (bit_or Msr.ip Msr.ile)) in
    let endian : ℕ = if has m Msr.ile then bit_or kept Msr.le else kept in
    if is_machine_check v then bit_and endian (not32 Msr.me) else endian

-- The registers after an exception, without the bookkeeping.
unfoldable pub exc_state : Exc → ℕ → ℕ → CpuState → CpuState
unfolding handler_msr
exc_state v srr0 extra s =
    let m = handler_msr v s.msr in
    record s {
      srr0 = srr0;
      srr1 = bit_or (bit_and s.msr 0x87c0_ffff) (bit_and extra 0x783f_0000);
      msr = m;
      pc = bit_or (if has m Msr.ip then 0xfff0_0000 else 0) (vector_of v);
    }

abbrev exc_rec : Exc → ℕ → CpuState → ExcRec
exc_rec v srr0 s = record {
  vec = vector_of v;
  srr0 = srr0;
  srr1 = s.srr1;
  dar = s.dar;
  dsisr = s.dsisr;
  r0 = s.gpr 0;
  lr = s.lr;
  tb = s.tb;
}

unfoldable pub raise_exc : Exc → ℕ → ℕ → Cpu → Cpu
raise_exc v srr0 extra c =
    let s = exc_state v srr0 extra c.st in
    let slot = bit_and (vector_of v >>> 8) 15 in
    record c {
      raised_this_step = true;
      st = s;
      exc_ring = update c.exc_ring (bit_and c.exc_ring_at 31) (exc_rec v srr0 s);
      exc_ring_at = u64 (c.exc_ring_at + 1);
      exc_by_vec = update c.exc_by_vec slot (u64 (c.exc_by_vec slot + 1));
    }
