-- ===== src/Backing.antt =====
-- The comparison of the vault with the circulating supply: the unit conversions of src/config.py
-- and the backing functions of src/fees.py.
mod Amounts
mod Surplus
mod Tests
pub mod Rounding
pub mod Solvency
unfoldable pub use Amounts.*
unfoldable pub use Surplus.*
