-- ===== src/Payout.antt =====
-- The ledger of outbound Solana payouts in src/state_db.py: capacity is reserved for an obligation
-- before its transfer is sent, and settled or released once the outcome is known.
mod Events
mod Budget
mod Settle
pub mod WellFormed
pub mod Capacity
pub mod Preserve
pub mod Rebuild
pub mod History
pub mod Checked
pub mod Limits
pub mod Lifecycle
mod Tests
unfoldable pub use Events.*
unfoldable pub use Budget.*
unfoldable pub use Settle.*
