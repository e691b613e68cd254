-- ===== src/Ports.antt =====
-- client/config.go: the targets of a port of the client.
mod Defs
pub mod Resolved
pub mod Reference
pub mod Correct
unfoldable pub use Defs.*
