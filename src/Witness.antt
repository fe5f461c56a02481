-- ===== src/Witness.antt =====
-- The anti-rollback witness in src/custody_witness.py: certificates, heads and the event chain.
mod Certificates
mod Heads
pub mod Follow
pub mod Moves
pub mod Permit
mod Tests
unfoldable pub use Certificates.*
unfoldable pub use Heads.*
