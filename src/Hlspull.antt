-- ===== src/Hlspull.antt =====
-- Live HLS as one stream of MPEG-TS: gateway/internal/hlspull/hlspull.go.
mod Playlist
mod Loop
pub mod Window
pub mod Bounds
pub mod Slices
pub mod Source
unfoldable pub use Playlist.*
unfoldable pub use Loop.*
