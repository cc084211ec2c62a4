-- ===== src/Prelude/BitLaws.antt =====
-- The bit operations at variables: one digit at a time, then bit by bit, for every width.
mod Digits
mod Testing
mod Masks
mod Parts
pub use Digits.*
unfoldable pub use Testing.*
pub use Masks.*
pub use Parts.*
