-- ===== src/Buffered.antt =====
-- internal/hub/buffered_conn.go: the connection with a write buffer, which a goroutine drains into the
-- socket at the pace of a bandwidth gate, and which hands out credits for the frames it has written.
mod Defs
pub mod Order
pub mod Credit
unfoldable pub use Defs.*
