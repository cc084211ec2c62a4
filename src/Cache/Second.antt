-- ===== src/Cache/Second.antt =====
-- The second-level cache (core/src/cache.cpp): its operations over the bus, and the flat memory it keeps.
mod Array
mod View
mod Change
mod Backing
mod Purge
mod Install
pub mod Memory
unfoldable pub use Array.*
unfoldable pub use View.*
