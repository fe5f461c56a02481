-- ===== src/Retry.antt =====
-- The bookkeeping around retries in src/state_db.py: reservations of actions, counts of attempts,
-- proposed waterlines and the counter of references.
mod Actions
mod Counters
pub mod Exclusion
pub mod References
mod Tests
unfoldable pub use Actions.*
unfoldable pub use Counters.*
