-- ===== src/Claims.antt =====
-- internal/hub/hub.go: the normalization of the claims of a token, and the reason of a close frame.
mod Entries
mod Ports
pub mod Reason
pub mod Budget
pub mod Rejected
pub mod Sort
pub mod Filter
pub mod Granted
pub mod Limits
pub mod Normal
pub mod Hosts
pub mod Collision
pub mod Routes
pub mod Timeouts
pub mod Parse
pub mod Split
pub mod Shown
pub mod RoundTrip
unfoldable pub use Entries.*
unfoldable pub use Ports.*
