-- ===== src/Registry.antt =====
-- internal/hub/hub.go: which backends the pools of the hub hold.
mod Defs
pub mod Slots
pub mod Selects
pub mod Registered
unfoldable pub use Defs.*
