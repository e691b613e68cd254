-- ===== src/Idle.antt =====
-- internal/hub/hub.go: the idle timeout of UDP flows, which several backends may claim for one port.
-- Each method holds the mutex, so it is one atomic step.
mod Defs
pub mod Tracked
pub mod Effective
unfoldable pub use Defs.*
