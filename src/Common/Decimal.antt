-- ===== src/Common/Decimal.antt =====
-- Decimal integers as package strconv reads and package fmt writes them, over the integers of
-- 64 bits that the gateway uses for identifiers and times.
mod Digits
pub mod Laws
unfoldable pub use Digits.*
