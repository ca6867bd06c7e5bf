-- ===== src/Slate.antt =====
-- The slate pages: which files `serveSlate` of gateway/internal/gatewayhttp/handler.go may ask the
-- slate manager of gateway/internal/slate/slate.go for, and the manager.
mod Route
mod Sessions
mod Manage
pub mod Names
pub mod Valid
pub mod Sizes
pub mod Limits
pub mod Capacity
unfoldable pub use Route.*
unfoldable pub use Sessions.*
unfoldable pub use Manage.*
