-- ===== src/Tunnel.antt =====
-- internal/peer/tunnel.go and the reader of internal/peer/peer.go: connections tunneled between peers.
mod Defs
mod Wire
pub mod Sent
pub mod Credits
pub mod RoundTrip
unfoldable pub use Defs.*
unfoldable pub use Wire.*
