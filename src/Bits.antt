-- ===== src/Bits.antt =====
-- core/include/opm/bits.hpp: the PowerPC bit numbering, its instruction fields and their laws.
mod Numbering
mod Fields
pub mod Laws
pub mod Tests
unfoldable pub use Numbering.*
unfoldable pub use Fields.*
