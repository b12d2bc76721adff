-- ===== src/Banking.antt =====
-- The banking operations: shared/domain/banking.ts.
pub mod Command
pub mod Pending
pub mod Guards
pub mod Deltas
pub mod Transfers
pub mod Loans
pub mod Holdings
pub mod Trade
pub mod Undo
pub mod Bankruptcy
pub mod Preview
pub mod Dispatch
pub mod Effects
