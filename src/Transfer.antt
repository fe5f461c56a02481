-- ===== src/Transfer.antt =====
-- The operator's Nexus transfers in src/state_db.py: a durable intent for each held source credit,
-- its authorization, the claim of its one remote debit, and the final disposition of the source.
mod Intents
mod Prepare
mod Execute
mod Dispose
pub mod Status
pub mod Advance
pub mod Progress
pub mod Completion
pub mod History
pub mod Claims
mod Tests
pub mod Creation
pub mod Disposal
unfoldable pub use Intents.*
unfoldable pub use Prepare.*
unfoldable pub use Execute.*
unfoldable pub use Dispose.*
