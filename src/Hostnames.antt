-- ===== src/Hostnames.antt =====
-- hostnames/hostnames.go, and the wildcard match of client/config.go.
mod Text
mod Names
pub mod Wildcard
unfoldable pub use Text.*
unfoldable pub use Names.*
