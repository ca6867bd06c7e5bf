-- ===== src/Node.antt =====
-- A relay node, gateway/internal/node/node.go: its configuration from the control plane, and the
-- requests of viewers.
mod Types
mod Control
mod Serve
pub mod Authority
pub mod Polling
unfoldable pub use Types.*
unfoldable pub use Control.*
unfoldable pub use Serve.*
