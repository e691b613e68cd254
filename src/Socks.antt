-- ===== src/Socks.antt =====
-- client/socks5.go: the SOCKS5 server of the client.
mod Defs
pub mod Session
unfoldable pub use Defs.*
