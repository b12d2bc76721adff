-- ===== src/Reversal.antt =====
-- Reversing a transaction: shared/domain/reversal.ts and participants.ts.
mod Defs
pub mod Laws
unfoldable pub use Defs.*
