-- ===== src/Integer.antt =====
-- core/src/exec_int.cpp: the executors of integer arithmetic, logic, shifts, rotates, comparisons,
-- traps and branches. An executor takes the instruction word and the state and returns the new state;
-- those that may raise an exception act on the whole processor.
mod Helpers
mod Arith
mod MulDiv
mod Logic
mod Shift
mod Compare
mod Branch
mod Condition
pub mod RecordLaws
pub mod AddLaws
pub mod MulDivLaws
pub mod LogicLaws
pub mod ShiftLaws
pub mod ShiftValues
pub mod CompareLaws
pub mod BranchLaws
pub mod Tests
unfoldable pub use Helpers.*
unfoldable pub use Arith.*
unfoldable pub use MulDiv.*
unfoldable pub use Logic.*
unfoldable pub use Shift.*
unfoldable pub use Compare.*
unfoldable pub use Branch.*
unfoldable pub use Condition.*
