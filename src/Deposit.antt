-- ===== src/Deposit.antt =====
-- The admission of Solana deposits: src/solana_deposit_policy.py and the operations of
-- src/state_db.py on the pending deposits.
mod Policy
mod Evidence
mod Pending
pub mod Frozen
pub mod Exact
mod Tests
pub mod Freezing
pub mod Decided
pub mod Limits
unfoldable pub use Policy.*
unfoldable pub use Evidence.*
unfoldable pub use Pending.*
