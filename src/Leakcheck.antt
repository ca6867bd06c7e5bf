-- ===== src/Leakcheck.antt =====
-- The leak checker of gateway/internal/leakcheck.
mod Matcher
mod Tables
mod Record
mod Revoke
mod Reply
mod Scan
mod Run
mod Lock
pub mod Evidence
pub mod Again
pub mod Grouping
pub mod Revoked
pub mod Counts
pub mod Coverage
pub mod Exclusion
unfoldable pub use Matcher.*
unfoldable pub use Tables.*
unfoldable pub use Record.*
unfoldable pub use Revoke.*
unfoldable pub use Reply.*
unfoldable pub use Scan.*
unfoldable pub use Run.*
unfoldable pub use Lock.*
