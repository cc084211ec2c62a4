-- ===== src/OpenPic.antt =====
-- machine/include/opm/openpic.hpp and machine/src/openpic.cpp: KeyLargo's interrupt controller.
mod State
mod Scan
mod Registers
pub mod Priority
pub mod Delivery
pub mod Window
pub mod Invariant
pub mod Tests
unfoldable pub use State.*
unfoldable pub use Scan.*
unfoldable pub use Registers.*
