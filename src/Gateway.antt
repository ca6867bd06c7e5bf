-- ===== src/Gateway.antt =====
-- The public HTTP surface of gateway/internal/gatewayhttp, with the access decisions of
-- gateway/internal/store/store.go.
mod Types
mod Target
mod Access
mod Routing
mod Entry
mod Reference
pub mod TrustCache
pub mod Naming
pub mod Guard
pub mod NodeApi
pub mod NodeGuard
pub mod Delivery
pub mod Proxied
unfoldable pub use Types.*
unfoldable pub use Target.*
unfoldable pub use Access.*
unfoldable pub use Routing.*
unfoldable pub use Entry.*
unfoldable pub use Reference.*
