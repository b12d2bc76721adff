-- ===== src/Auction.antt =====
-- Auctions: shared/domain/auction-rules.ts and auction.ts.
mod Defs
pub mod Laws
pub mod Settlement
pub mod Safety
unfoldable pub use Defs.*
