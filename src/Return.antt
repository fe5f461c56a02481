-- ===== src/Return.antt =====
-- Refunds and quarantines of Solana deposits in src/state_db.py: the terms are frozen and the
-- capacity is reserved before the transfer is sent, and the source is settled once it is confirmed.
mod Kinds
mod Intent
mod Holds
mod Claim
mod Held
mod Prepare
mod Submit
mod Confirm
mod Rebuild
mod Rebuilt
pub mod Evidence
pub mod Order
pub mod Outcome
pub mod Prepared
pub mod Exclusive
pub mod Steps
pub mod Sent
pub mod Complete
mod Tests
mod HeldTests
pub mod Recovered
pub mod Retried
unfoldable pub use Kinds.*
unfoldable pub use Intent.*
unfoldable pub use Holds.*
unfoldable pub use Claim.*
unfoldable pub use Held.*
unfoldable pub use Prepare.*
unfoldable pub use Submit.*
unfoldable pub use Confirm.*
unfoldable pub use Rebuild.*
unfoldable pub use Rebuilt.*
