-- ===== src/Base/Assoc.antt =====
-- `HashMap` as an association list. The order of the list stands for the order of iteration.
mod Entries
mod Sums
mod Distinct
mod Measured
unfoldable pub use Entries.*
unfoldable pub use Sums.*
unfoldable pub use Distinct.*
pub use Measured.*
