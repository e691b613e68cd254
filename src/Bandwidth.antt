-- ===== src/Bandwidth.antt =====
-- internal/bandwidth/scheduler.go: the deficit scheduler that shares one bandwidth limit among the
-- backends. `time.Now()` is the argument `now`, in nanoseconds; an identifier is a number, since
-- the code only compares identifiers; a `CompareAndSwap` loop is the exchange that ends it.
mod Defs
mod Ops
pub mod Count
pub mod Budget
pub mod Limit
pub mod Refs
unfoldable pub use Defs.*
unfoldable pub use Ops.*
