-- ===== src/Stages.antt =====
-- internal/hub/hub.go: the two stages of a handshake, `validateStage0Claims` on the handshake token and
-- `buildMetadataFromClaims` on the attested token.
mod Defs
pub mod Consistent
unfoldable pub use Defs.*
