-- ===== src/Pci.antt =====
-- machine/include/opm/pci.hpp and machine/src/pci.cpp: PCI configuration space behind the address and
-- data registers of the host bridge.
mod Config
mod Banks
pub mod BarLaws
pub mod BankLaws
pub mod Tests
unfoldable pub use Config.*
unfoldable pub use Banks.*
