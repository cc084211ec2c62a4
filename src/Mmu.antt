-- ===== src/Mmu.antt =====
-- core/src/mmu.cpp: address translation and the accessors of virtual memory.
pub mod Memory
mod Bat
mod Table
mod Translate
mod Access
pub mod FaultLaws
pub mod BlockLaws
pub mod BufferLaws
pub mod Tests
unfoldable pub use Memory.*
unfoldable pub use Bat.*
unfoldable pub use Table.*
unfoldable pub use Translate.*
unfoldable pub use Access.*
