-- ===== src/Cuda.antt =====
-- The Cuda microcontroller (machine/src/cuda.cpp): its packets and their replies.
mod Packets
pub mod Laws
pub mod Writes
pub mod Tests
unfoldable pub use Packets.*
