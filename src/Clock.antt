-- ===== src/Clock.antt =====
-- The clock of core/include/opm/cpu.hpp: the time base, the decrementer and the cycles charged to them.
mod Tick
pub mod TickLaws
pub mod Deadline
pub mod Tests
unfoldable pub use Tick.*
