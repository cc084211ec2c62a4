-- ===== src/Cpu.antt =====
-- core/include/opm/cpu.hpp and core/src/exceptions.cpp: the processor's state and its exceptions.
mod State
pub mod Msr
pub mod Cause
mod Flags
mod Exceptions
pub mod Samples
pub mod FlagLaws
pub mod ExceptionLaws
pub mod Tests
unfoldable pub use State.*
unfoldable pub use Flags.*
unfoldable pub use Exceptions.*
