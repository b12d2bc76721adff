-- ===== src/Money.antt =====
-- The arithmetic of money: shared/domain/mortgage.ts, bank-loan.ts and game-rules.ts, and the
-- number tests of JavaScript that they use.
mod Defs
pub mod Rounding
pub mod Unit
unfoldable pub use Defs.*
