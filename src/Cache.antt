-- ===== src/Cache.antt =====
-- The caches (core/src/cache.cpp): the data cache of the processor and what lies below it.
mod Bytes
mod Lower
mod Index
mod Data
mod Maintain
pub mod LineLaws
pub mod CleanLaws
pub mod RoundTrip
pub mod Tests
mod Places
mod View
mod Change
mod Placing
mod Victim
mod Serve
mod ByteOrder
mod StoredBytes
mod Second
pub mod ReadLaws
mod StoreLaws
pub mod WriteLaws
unfoldable pub use Bytes.*
unfoldable pub use Second.*
unfoldable pub use Lower.*
unfoldable pub use Data.*
unfoldable pub use Maintain.*
unfoldable pub use Index.*
