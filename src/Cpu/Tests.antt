-- ===== src/Cpu/Tests.antt =====
-- An exception at a concrete machine state.
use open_power_mac.Prelude.{◌≡◌, refl}
use open_power_mac.Cpu.State.{isi, machine_check}
use open_power_mac.Cpu.Exceptions.{raise_exc, exc_state, handler_msr}
use open_power_mac.Cpu.ExceptionLaws.{HandlerState, handler_msr-HandlerState}
use open_power_mac.Cpu.Samples.{sample}

handler_address : (raise_exc isi 0x1000 0x4000_0000 sample).st.pc ≡ 0x400
unfolding raise_exc exc_state handler_msr
handler_address = refl

handler_msr-HandlerState_example :
    HandlerState machine_check 0x1_d030 (handler_msr machine_check 0x1_d030)
handler_msr-HandlerState_example = handler_msr-HandlerState machine_check 0x1_d030
