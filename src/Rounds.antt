-- ===== src/Rounds.antt =====
-- Turns and rounds: shared/domain/round-tracking.ts and winner-calculation.ts.
mod Defs
pub mod Laws
unfoldable pub use Defs.*
