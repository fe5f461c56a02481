-- ===== src/Memo.antt =====
-- The memo of a Nexus-to-Solana payout, which carries the identity of its Nexus credit:
-- src/nexus_memo.py and the text that src/swap_nexus.py writes.
mod Parse
pub mod Digits
pub mod RoundTrip
mod Tests
unfoldable pub use Parse.*
