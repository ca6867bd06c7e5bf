-- ===== src/Nodeproto.antt =====
-- gateway/internal/nodeproto/nodeproto.go: node tokens, derived keys and viewer signatures. SHA-256
-- and HMAC are packages of Go's library: functions on bytes stand for them.
mod Token
mod Signature
pub mod TokenLaws
pub mod SignatureLaws
unfoldable pub use Token.*
unfoldable pub use Signature.*
