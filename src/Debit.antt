-- ===== src/Debit.antt =====
-- The debit that pays a Solana deposit out on Nexus, in src/state_db.py: its intent in the queue and
-- the archive of the confirmed payout.
mod Intent
mod Finalize
mod History
mod Tests
pub mod Fixed
pub mod Calls
pub mod Refusal
pub mod Archive
unfoldable pub use Intent.*
unfoldable pub use Finalize.*
unfoldable pub use History.*
