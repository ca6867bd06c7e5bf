-- ===== src/Hls.antt =====
-- The playlist rewriter of gateway/internal/hls.
mod Rewrite
pub mod References
mod Pieces
pub mod Links
unfoldable pub use Rewrite.*
