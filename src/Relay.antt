-- ===== src/Relay.antt =====
-- The always-on supervisor of gateway/internal/gatewayhttp/alwayson.go.
mod Backoff
mod Supervise
pub mod Steps
pub mod Delay
pub mod Waiting
pub mod Keeping
pub mod Trying
pub mod Retry
unfoldable pub use Backoff.*
unfoldable pub use Supervise.*
