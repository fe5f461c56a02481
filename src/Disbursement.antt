-- ===== src/Disbursement.antt =====
-- The Solana payout of a Nexus credit in src/state_db.py: the credit is claimed for one exact
-- payout, and later archived with its fee and its settled budget.
mod Prepare
mod Evidence
mod Finalize
mod Terminal
pub mod Exclusive
pub mod Archive
pub mod Repeat
pub mod Columns
pub mod Outcomes
pub mod Refused
mod Tests
unfoldable pub use Prepare.*
unfoldable pub use Evidence.*
unfoldable pub use Finalize.*
unfoldable pub use Terminal.*
