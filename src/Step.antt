-- ===== src/Step.antt =====
-- core/src/cpu.cpp: one step of the processor, from the interrupts at the instruction boundary to the
-- trace exception after an instruction.
mod Execute
pub mod InterruptLaws
pub mod Tests
unfoldable pub use Execute.*
