-- ===== src/Routing.antt =====
-- internal/routing: the list of the peers that serve a hostname with its round robin, and the table of
-- the mesh over it.
mod Peers
mod Table
pub mod Listing
pub mod Routes
pub mod Loops
pub mod Removal
pub mod Announced
pub mod Newest
pub mod Updates
pub mod Refines
pub mod Selection
unfoldable pub use Peers.*
unfoldable pub use Table.*
