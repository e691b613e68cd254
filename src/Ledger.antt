-- ===== src/Ledger.antt =====
-- client/credit_ledger.go: the ledger of reverse credits of one client connection, and the drain
-- of client/client.go that spends them.
mod Defs
mod Drain
pub mod Ops
pub mod Credits
pub mod Probe
pub mod Pending
pub mod Wakeup
pub mod Spend
unfoldable pub use Defs.*
unfoldable pub use Drain.*
