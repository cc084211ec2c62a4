-- ===== src/Lib.antt =====
-- Verification of parts of OpenPowerMac, an emulator of PowerPC G4 Macintosh computers.
--
-- The processor runs one instruction at a time (core/src/cpu.cpp): it takes a pending interrupt, or
-- fetches a word through the memory management unit (core/src/mmu.cpp) and hands it to an executor
-- (core/src/exec_int.cpp), which may raise an exception (core/src/exceptions.cpp); then it charges the
-- cycles to its clock (core/include/opm/cpu.hpp). The devices raise their lines at the interrupt
-- controller (machine/src/openpic.cpp), whose output is the processor's external interrupt line, and
-- the machine's memory map is programmed in PCI configuration space (machine/src/pci.cpp).
--
-- Prelude: tests, words, integers and bits over the native numbers. A 32-bit word is a number below
--   2 ^ 32 with every wrap-around written out; a table is a function of its index.
-- Bits: core/include/opm/bits.hpp (ppcbits, ppcbit, ppcmask, the f_ fields, the sext functions,
--   alignDsisr as align_dsisr).
-- Cpu: the state of core/include/opm/cpu.hpp (CpuState, Cpu, Exc), its flag helpers, and
--   Cpu::raiseExc as raise_exc. The caches and the host's instruments are not in the state.
-- Integer: the executors of core/src/exec_int.cpp from the D-form arithmetic to the halfword sign
--   extension, one function h_ for each, with addc3, trapCond (trap_cond), bcTaken (bc_taken) and the
--   other helpers. The LOGIC macro is the function `logic`. Condition has the forms on the condition
--   register (the CROP macro is cr_op) and Cpu::thrmUpdate.
-- Mmu: core/src/mmu.cpp but for the fetch path. Cpu::translate is `translate`, made of its steps in
--   order: real mode, bat_lookup, segment_translate, tlb_lookup, walk. A result `none` is `false`, with
--   the exception in the machine returned. Physical memory (memRead, memWrite, Bus::read32) is the
--   interface Memory.
-- Cache: core/src/cache.cpp. Bytes and Index have the lines, the index and the victims of the first
--   level, Data has memRead and memWrite, Maintain the dcb instructions, the snoop and the flush. The
--   first level stands over the interface Lower; Second has the second level and the drops of the fetch
--   buffer, over a bus that is a parameter, and fills Lower. A coherent cache presents one flat memory
--   of bytes, cached_byte, and each operation is a read or a write of it. The watchpoints and the
--   censuses of accesses, which are instruments of the host, are left out.
-- Clock: Cpu::tick, charge, syncClock, clockAdvanceCycles, tbNow, tbUntilDec and stepsUntilDec. The
--   chunks of a long advance recurse on one more than the chunks that the cycles make, plus one for
--   the test that ends them.
-- Step: Cpu::step and Cpu::execRow. The instruction table, the executors behind it and the decoded
--   fetch are the interface Isa.
-- LoadStore: the loads and stores of one register of core/src/exec_int.cpp, the LOAD and LOADU macros as
--   load_op and load_update. The value that `writeV8` and `writeV16` take is cut to their width.
--   Multiple has the multiple, string, reservation and external control accesses; their loops recurse
--   on the number of registers or bytes that are left. Floating has those of the floating registers,
--   the FLOAD and FSTORE macros as float_load and float_store.
-- SoftFloat: loadSingle and storeSingle of core/src/softfp.cpp.
-- Cuda: machine/src/cuda.cpp, whole: hostPacket as host_packet, with the pseudo and the ADB commands.
-- OpenPic: machine/src/openpic.cpp, whole but for its printing: read, write, set_line, iack,
--   highest_pending and cpu_line.
-- Pci: machine/src/pci.cpp, whole: read_data, write_data, ram_bank, mem_go, ati_base, ati_io_base.
--
-- Not modelled: the special registers of exec_int.cpp, the arithmetic of softfp.cpp, the floating
-- and vector units and the decoder, which the interfaces above stand for; the other devices; the
-- just-in-time compiler, which writes host code; the profiler, the desktop shell, the tools and the
-- tests.
pub mod Bits
pub mod Cache
pub mod Clock
pub mod Cpu
pub mod Cuda
pub mod Integer
pub mod LoadStore
pub mod Mmu
pub mod OpenPic
pub mod Pci
pub mod Prelude
pub mod SoftFloat
pub mod Step
