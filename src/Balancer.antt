-- ===== src/Balancer.antt =====
-- internal/hub/loadbalancer.go: the weighted round robin over the backends of one hostname.
mod Pool
pub mod Choice
pub mod Divisor
pub mod Select
unfoldable pub use Pool.*
