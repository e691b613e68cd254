-- ===== src/Flows.antt =====
-- internal/proxy/udp_listener.go: the table of UDP flows of a listener, in the order of use.
mod Lru
mod Listener
pub mod Recency
pub mod Prefixes
pub mod Runs
pub mod Kept
unfoldable pub use Lru.*
unfoldable pub use Listener.*
